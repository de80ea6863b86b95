-- ===== src/Tests/Start.antt =====
-- Examples of the theorems on start-up, on the task monitor, on the scanner and on debug.c.
use ip.Base.{
  ℕ, ◌+◌, ◌≤◌, ◌≡◌, refl, ap, arith, true, false, not, List, [], ◌∷◌, ◌++◌, Option, some, length,
}
use ip.Os.{Call, Err}
use ip.Utility.Print.{codes}
use ip.Utility.Print.Fields.{read_fields}
use ip.Utility.Checksum.Sum.{IsBytes}
use ip.Utility.Debug.{
  ip_bytes, mac_bytes, ipv4_to_readable, mac_to_readable, readable-read, readable-fits,
}
use ip.Monitor.{
  TaskStatus, Scheduler, Monitor, print_report, report_header, report_size,
  task_monitor_build_report,
}
use ip.Monitor.Printing.{AreTasks, report_lines, print_report_lem}
use ip.Monitor.Answer.{report_built}
use ip.Startup.Kernel.{Handle, Task, Kernel, Boot, mark, same_handle}
use ip.Startup.Init.{init_tcp, arp_init, ipv4_init, ensure, ensure_arp_set, ensure_in, ensure_set}
use ip.Startup.Init.Queues.{Served}
use ip.Startup.Init.Served.{
  call_arp_init, call_ipv4_init, call_udp_init, run_inits, run_inits-Served,
}
use ip.Startup.Init.Tcp.{init_tcp_without_set}
use ip.Startup.Wifi.{
  Station, net_context, wifi_begin, begin_driver, begin_addressed, begin_protocols, checked,
  set_addresses,
}
use ip.Startup.Wifi.Begin.{Open, wifi_begin-Open}
use ip.Apps.ArpScanner.{
  requested, hosts_down, host_texts, readable_ips, begin_scan, begin_scan_complete,
}
use ip.Tests.Setup.{granting, own_ip, own_mac, peer_ip, boot}

own_ip-IsBytes : IsBytes (ip_bytes own_ip)
own_ip-IsBytes = omega arith

own_mac-IsBytes : IsBytes (mac_bytes own_mac)
own_mac-IsBytes = omega arith

readable-read_example :
    (read_fields 10 46 0 (ipv4_to_readable own_ip) ≡ ip_bytes own_ip)
    × (read_fields 16 58 0 (mac_to_readable own_mac) ≡ mac_bytes own_mac)
readable-read_example = readable-read own_ip own_mac own_ip-IsBytes own_mac-IsBytes

readable-fits_example :
    (length (ipv4_to_readable own_ip) + 1 ≤ 12 + 3 + 1)
    × (length (mac_to_readable own_mac) + 1 ≤ 12 + 5 + 1)
readable-fits_example = readable-fits own_ip own_mac own_ip-IsBytes own_mac-IsBytes

abbrev two_tasks : List TaskStatus
two_tasks =
    record { name = codes "tcp task"; stack_high_water_mark = 812 }
    ∷ record { name = codes "IDLE"; stack_high_water_mark = 70000 }
    ∷ []

abbrev watched : Option (List (List ℕ))
watched = some (codes "tcp task" ∷ codes "arp task" ∷ [])

two_tasks-AreTasks : AreTasks two_tasks
two_tasks-AreTasks = omega arith

print_report_lem_example :
    (print_report watched two_tasks ≡ record {
      text = report_header ++ report_lines watched two_tasks;
      pos = length (report_header ++ report_lines watched two_tasks);
      overrun = false;
    })
    × (length (report_header ++ report_lines watched two_tasks) + 1 ≤ report_size two_tasks)
print_report_lem_example = print_report_lem watched two_tasks two_tasks-AreTasks (omega arith)

abbrev scheduler : Scheduler
scheduler = record { number_of_tasks = λ l. 2; system_state = λ l n. two_tasks; status_size = 36 }

report_built_example : task_monitor_build_report granting scheduler watched boot ≡ (
  some (record { addr = 1001; bytes = report_header ++ report_lines watched two_tasks }),
  record boot {
    log = Call.free 1000 ∷ Call.malloc 145 (some 1001) ∷ Call.malloc 216 (some 1000) ∷ [];
  },
)
report_built_example =
    report_built granting scheduler watched boot 1000 1001 refl refl two_tasks-AreTasks
      (omega arith)

abbrev monitor : Monitor
monitor = record {
  net = boot;
  watched_names = watched;
  other_port_num = 4096;
  other_ipv4_addr = peer_ip;
}

-- A kernel that grants all but the second set of queues.
abbrev without_set : Kernel
without_set = record {
  handle_new = λ calls h. not (same_handle h Handle.tcp_task_queue_set);
  task_new = λ calls t. true;
  sdk_result = λ calls c. Err.esp_ok;
  mac = own_mac;
}

abbrev cold : Boot
cold = record { created = λ h. false; started = λ t. false; calls = [] }

cold-Served : Served cold
unfolding Served
cold-Served t runs = ground arith

run_inits-Served_example :
    Served (run_inits without_set (call_arp_init ∷ call_ipv4_init ∷ call_udp_init ∷ []) cold)
run_inits-Served_example =
    run_inits-Served without_set (call_arp_init ∷ call_ipv4_init ∷ call_udp_init ∷ []) cold
      cold-Served

init_tcp_without_set_example :
    ((init_tcp without_set cold).0 ≡ Err.esp_ok)
    × ((init_tcp without_set cold).1.started Task.tcp_task ≡ true)
    × ((init_tcp without_set cold).1.created Handle.tcp_task_queue_set ≡ false)
init_tcp_without_set_example =
    init_tcp_without_set without_set cold (λ h. refl) (λ calls. refl)
      (λ calls h other. ap not other) (λ calls. refl)

abbrev station : Station
station = record { net = boot; boot = cold; rx_callback = false; aborted = false }

wifi_begin-Open_example : Open (net_context without_set) (wifi_begin without_set station).1
wifi_begin-Open_example = wifi_begin-Open without_set station refl cold-Served

begin_scan_complete_example :
    (requested (begin_scan granting (λ i rows. rows) 5 boot).1.log ≡ hosts_down 254 1 ++ [])
    × (readable_ips (begin_scan granting (λ i rows. rows) 5 boot).0 ≡ host_texts 254 1)
begin_scan_complete_example = begin_scan_complete granting (λ i rows. rows) 5 boot

-- With a kernel that grants all of this, the callback is registered.
begin_opens : (wifi_begin without_set station).1.rx_callback ≡ true
unfolding wifi_begin begin_driver begin_addressed begin_protocols checked set_addresses arp_init
    ensure ensure_arp_set ipv4_init init_tcp ensure_in ensure_set mark
begin_opens = refl
