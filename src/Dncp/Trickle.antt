-- ===== src/Dncp/Trickle.antt =====
-- The Trickle timers and the keep-alives of one endpoint or peer (src/dncp_timeout.c). Times are in
-- milliseconds and 0 stands for "never", as in the source.
pub mod Bounds
pub mod Schedule
mod Tests
use hnetd.Common.{
  ℕ, ◌+◌, ◌*◌, ◌/◌, ◌%◌, ◌^◌, Bool, not, ◌&&◌, ◌||◌, List, [], ◌∷◌, ◌++◌, ltb, leb, ◌==◌,
  if◌then◌else◌,
}

-- `struct dncp_trickle_struct`
pub record Trickle : Type 0 where
  pub i : ℕ
  pub send_time : ℕ
  pub interval_end_time : ℕ
  pub c : ℕ
  pub last_sent : ℕ
  pub num_sent : ℕ
  pub num_skipped : ℕ

-- The fields of an endpoint (`dncp_ep_s`, `dncp_ep_i_s`) and of the protocol's configuration that
-- the timers read. `short_form` is the size of the endpoint id and the network state together.
pub record Endpoint : Type 0 where
  pub trickle_imin : ℕ
  pub trickle_imax : ℕ
  pub trickle_k : ℕ
  pub maximum_multicast_size : ℕ
  pub unicast_is_reliable_stream : Bool
  pub published_keepalive_interval : ℕ
  pub short_form : ℕ

-- A call of `dncp_ep_i_send_network_state`: to a peer or to the group, with the maximum size.
pub record Sent : Type 0 where
  pub to_peer : Bool
  pub maximum_size : ℕ

-- TMIN: the earlier of two times, where 0 is no time.
unfoldable pub tmin : ℕ → ℕ → ℕ
tmin x y = if x == 0 then y else if y == 0 then x else if ltb x y then x else y

-- The int that a 64-bit number, or a product of ints, is converted to. A negative int, which no configured
-- timer has, is taken as 0.
unfoldable pub as_int : ℕ → ℕ
as_int n = if ltb (n % 2 ^ 32) (2 ^ 31) then n % 2 ^ 32 else 0

clamp : ℕ → ℕ → ℕ → ℕ
clamp lo hi i = if ltb i lo then lo else if ltb hi i then hi else i

-- `rand` is what random() returns. An interval of less than 2 ms, for which the source divides by zero, is not
-- modelled: there the remainder is the number itself.
pub trickle_set_i : Trickle → Endpoint → ℕ → ℕ → ℕ → Trickle
unfolding clamp
trickle_set_i t l now rand i =
    let i' = clamp (as_int l.trickle_imin) (as_int l.trickle_imax) i in
    record t {
      i = i';
      send_time = now + i' / 2 + rand % (i' / 2);
      interval_end_time = now + i';
      c = 0;
    }

pub trickle_upgrade : Trickle → Endpoint → ℕ → ℕ → Trickle
trickle_upgrade t l now rand = trickle_set_i t l now rand (as_int (t.i * 2))

pub trickle_send_nocheck : Trickle → Endpoint → ℕ → Bool → Trickle × Sent
trickle_send_nocheck t l now to_peer =
    let full : ℕ = if to_peer then 0 else l.maximum_multicast_size in
    (
      record t { num_sent = t.num_sent + 1; last_sent = now },
      record {
        to_peer = to_peer;
        maximum_size = if not (t.i == l.trickle_imin) then l.short_form else full;
      },
    )

pub trickle_send : Trickle → Endpoint → ℕ → Bool → Trickle × List Sent
trickle_send t l now to_peer =
    let (t', m) = trickle_send_nocheck t l now to_peer in
    if ltb t.c l.trickle_k && (not l.unicast_is_reliable_stream || t.i == l.trickle_imin)
    then (record t' { send_time = 0 }, m ∷ [])
    else (record t { num_skipped = t.num_skipped + 1; send_time = 0 }, [])

-- The first half of `handle_trickle_and_ka`: the new state, what was sent, and `next` so far.
unfoldable pub handle_keepalive : Trickle → Endpoint → ℕ → ℕ → Bool → Trickle × List Sent × ℕ
handle_keepalive t l now rand to_peer =
    let (t', m) = trickle_send_nocheck t l now to_peer in
    let t'' = trickle_set_i t' l now rand t'.i in
    if l.published_keepalive_interval == 0
    then (t, [], 0)
    else if leb (t.last_sent + l.published_keepalive_interval) now
    then (t'', m ∷ [], tmin 0 (t''.last_sent + l.published_keepalive_interval))
    else (t, [], tmin 0 (t.last_sent + l.published_keepalive_interval))

-- The second half, before the two last SET_NEXT.
unfoldable pub handle_trickle : Trickle → Endpoint → ℕ → ℕ → Bool → Trickle × List Sent
handle_trickle t l now rand to_peer =
    if leb t.interval_end_time now
    then (trickle_upgrade t l now rand, [])
    else if not (t.send_time == 0) && leb t.send_time now
    then trickle_send t l now to_peer
    else (t, [])

-- `handle_trickle_and_ka`. `rand` and `rand'` are the two numbers drawn, if they are.
unfoldable pub handle_trickle_and_ka :
    Trickle → Endpoint → ℕ → ℕ → ℕ → Bool → Trickle × List Sent × ℕ
handle_trickle_and_ka t l now rand rand' to_peer =
    let (t', sent, next) = handle_keepalive t l now rand to_peer in
    let (t'', sent') = handle_trickle t' l now rand' to_peer in
    (t'', sent ++ sent', tmin (tmin next t''.interval_end_time) t''.send_time)
