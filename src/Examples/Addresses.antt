-- ===== src/Examples/Addresses.antt =====
-- Addresses and the log.
use moduo.Prelude.{◌≤◌, ◌≡◌, refl, false, [], ◌∷◌, ◌++◌, arith, length, ok, codes}
use moduo.InetAddress.{Net, new, to_ip, to_port, to_ip_port}
use moduo.InetAddress.Printing.{NetLaws, to_ip_port_lem}
use moduo.Timestamp.{Calendar}
use moduo.Timestamp
use moduo.Logger.{info, fatal, debug, Logger, set_log_level, log, write, call}
use moduo.Logger.Lines.{entry, call_all}

-- Big-endian ports, addresses that print as "1", and a printer with a digit for 8.
abbrev pub net : Net
net = record {
  htons = λ n. n;
  ntohs = λ n. n;
  inet_addr = λ ip. length ip;
  inet_ntop = λ n. 49 ∷ [];
  print = λ n. 56 ∷ [];
}

pub net-NetLaws : NetLaws net
net-NetLaws = record {
  swap = λ port h. refl;
  dotted_short = λ n. omega arith;
  dotted = λ n. (ground arith, tt);
  print_short = λ n h. omega arith;
  printed = λ n h. (ground arith, tt);
}

to_ip_port_lem_example :
    (to_port net (new net 8 (codes "1.0.0.127")) ≡ 8)
    × (to_ip net (new net 8 (codes "1.0.0.127")) ≡ codes "1")
    × (to_ip_port net (new net 8 (codes "1.0.0.127")) ≡ ok (codes "1:8"))
    × (3 ≤ 21)
to_ip_port_lem_example = to_ip_port_lem net 8 (codes "1.0.0.127") net-NetLaws (omega arith)

-- A calendar that prints nothing.
abbrev pub calendar : Calendar
calendar = record {
  localtime =
      λ n. record { tm_year = 0; tm_mon = 0; tm_mday = 0; tm_hour = 0; tm_min = 0; tm_sec = 0 };
  print_4d = λ n. [];
  print_02d = λ n. [];
}

abbrev pub empty_log : Logger
empty_log = record { level = 9; written = [] }

two_lines :
    call_all calendar false
      (entry debug 0 (codes "a") ∷ entry fatal 0 (codes "b") ∷ entry info 0 (codes "c") ∷ [])
      empty_log
    ≡ (record { level = 2; written = codes "[FATAL]// :: : b" ++ 10 ∷ [] }, false)
unfolding call_all call write log set_log_level Timestamp.to_string Timestamp.print_tm Timestamp.now
    Timestamp.new
two_lines = refl

-- Another thread sets its level between the two calls of `LOG_INFO`.
mislabelled :
    (log calendar 0 (codes "up") (set_log_level 1 (set_log_level 0 empty_log))).written
    ≡ codes "[ERROR]// :: : up" ++ 10 ∷ []
unfolding log set_log_level Timestamp.to_string Timestamp.print_tm Timestamp.now Timestamp.new
mislabelled = refl
