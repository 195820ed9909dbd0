-- ===== src/Printf/Tests.antt =====
-- telPrintf and formatTime: a run, and instances of the theorems.
use telnet_serv.Prelude.{
  ℕ, ◌+◌, ◌/◌, ◌%◌, ◌≡◌, refl, true, List, take, replicate, length-replicate, arith,
}
use telnet_serv.Terminal.{codes, decimal}
use telnet_serv.MsgBuf.{MsgBuf, moved}
use telnet_serv.MsgBuf.Threads.{init}
use telnet_serv.MsgBuf.Inv.{IsSize, MsgInv}
use telnet_serv.MsgBuf.Reach.{init-Inv}
use telnet_serv.Printf.{Tm, padded, time_text, Stamp, text, failed, tel_printf, tel_printf_no_time}
use telnet_serv.Printf.Time.{IsTime, IsCached}
use telnet_serv.Printf.Lines.{
  stamped, Logs, tel_printf_no_time_lem, tel_printf_lem, tel_printf-failed,
}

-- The first days of 1970.
abbrev utc : ℕ → Tm
utc seconds = record {
  tm_year = 70;
  tm_mon = 0;
  tm_mday = 1 + seconds / 86400 % 31;
  tm_hour = seconds / 3600 % 24;
  tm_min = seconds / 60 % 60;
  tm_sec = seconds % 60;
}

abbrev fresh : Stamp
fresh = record { t_time = replicate 25 0; t_last_second = 0 }

abbrev noon : ℕ
noon = 43205

utc-IsTime : IsTime (utc noon)
utc-IsTime = record {
  year_low = omega arith;
  year_high = omega arith;
  mon = omega arith;
  mday = omega arith;
  hour = omega arith;
  min = omega arith;
  sec = omega arith;
}

fresh-IsCached : IsCached utc fresh
fresh-IsCached h = absurd (h refl)

noon_text : time_text (utc noon) ≡ codes "[1970-01-01 12:00:05]"
unfolding time_text padded decimal
noon_text = refl

abbrev size : ℕ
size = 2001

abbrev memory : List ℕ
memory = replicate 2001 7

sized : IsSize size memory
sized = record {
  holds_line = omega arith;
  fits_int = omega arith;
  whole = length-replicate {A = ℕ} 2001 7;
}

abbrev buffers : MsgBuf
buffers = (init size memory).msg

buffers-MsgInv : MsgInv size buffers
buffers-MsgInv = (init-Inv size memory).msg_inv

tel_printf_no_time_lem_example :
    (m : MsgBuf) × (tel_printf_no_time size memory true (text (codes "link up")) buffers ≡ moved m)
    × Logs size memory sized (codes "link up") buffers m
tel_printf_no_time_lem_example =
    tel_printf_no_time_lem size memory sized true (codes "link up") buffers buffers-MsgInv
      (omega arith)

tel_printf_lem_example :
    (m : MsgBuf) × (t : Stamp) × (tel_printf size memory utc noon true
        (text (codes "link up"))
        buffers
        fresh
      ≡ moved (m, t))
    × IsCached utc t
    × Logs size memory sized (stamped true (time_text (utc noon)) (codes "link up")) buffers m
tel_printf_lem_example =
    tel_printf_lem size memory sized utc noon true (codes "link up") buffers fresh buffers-MsgInv
      (omega arith) (omega arith) utc-IsTime fresh-IsCached

tel_printf-failed_example :
    (m : MsgBuf) × (t : Stamp) × (tel_printf size memory utc noon true failed buffers fresh
      ≡ moved (m, t))
    × Logs size memory sized (take 20 (time_text (utc noon))) buffers m
tel_printf-failed_example =
    tel_printf-failed size memory sized utc noon buffers fresh buffers-MsgInv (omega arith)
      utc-IsTime fresh-IsCached
