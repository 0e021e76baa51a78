-- ===== src/Dncp/Trickle/Tests.antt =====
-- Tests of the timers, with the default configuration of HNCP (200 ms to 51.2 s).
use hnetd.Common.{ℕ, ◌+◌, ◌*◌, ◌^◌, ◌≤◌, ◌<◌, min, ◌≡◌, refl, ◌⊎◌, false, [], ◌∷◌, arith}
use hnetd.Dncp.Trickle.{
  Trickle, Endpoint, as_int, trickle_set_i, trickle_send, trickle_send_nocheck,
  handle_trickle_and_ka,
}
use hnetd.Dncp.Trickle.Bounds.{
  IsRunning, handle_trickle_and_ka-IsRunning, upgrades, upgrades_double,
}
use hnetd.Dncp.Trickle.Schedule.{handle_trickle_and_ka_next}

abbrev endpoint : Endpoint
endpoint = record {
  trickle_imin = 200;
  trickle_imax = 51200;
  trickle_k = 1;
  maximum_multicast_size = 1280;
  unicast_is_reliable_stream = false;
  published_keepalive_interval = 20000;
  short_form = 40;
}

abbrev timer : Trickle
timer = record {
  i = 400;
  send_time = 1250;
  interval_end_time = 1400;
  c = 0;
  last_sent = 900;
  num_sent = 1;
  num_skipped = 0;
}

set_i_runs :
    trickle_set_i timer endpoint 2000 150 800
    ≡ record timer { i = 800; send_time = 2550; interval_end_time = 2800 }
unfolding trickle_set_i as_int
set_i_runs = refl

-- In a long interval only the short form is sent.
send_runs : trickle_send timer endpoint 1250 false ≡ (
  record timer { num_sent = 2; last_sent = 1250; send_time = 0 },
  record { to_peer = false; maximum_size = 40 } ∷ [],
)
unfolding trickle_send trickle_send_nocheck
send_runs = refl

handle_trickle_and_ka-IsRunning_example :
    IsRunning (handle_trickle_and_ka timer endpoint 1300 7 8 false).0 endpoint 1300
handle_trickle_and_ka-IsRunning_example =
    handle_trickle_and_ka-IsRunning {t = timer} {l = endpoint} {now = 1300} 7 8 false (omega arith)
      (omega arith)

upgrades_double_example :
    ((upgrades 3 (λ n. (1400, n)) endpoint timer).i ≡ min 51200 (400 * 2 ^ 3))
    × (200 ≤ (upgrades 3 (λ n. (1400, n)) endpoint timer).i)
upgrades_double_example =
    upgrades_double 3 (λ n. (1400, n)) endpoint timer (omega arith) (omega arith) (omega arith)

handle_trickle_and_ka_next_example :
    let (t', sent, next) = handle_trickle_and_ka timer endpoint 1300 7 8 false in
    (1300 < next)
    × (next ≤ t'.interval_end_time)
    × ((t'.send_time ≡ 0) ⊎ (next ≤ t'.send_time))
    × (◌≡◌ {A = ℕ} 20000 0 ⊎ (next ≤ t'.last_sent + 20000))
handle_trickle_and_ka_next_example =
    handle_trickle_and_ka_next timer endpoint 1300 7 8 false (omega arith) (omega arith)
