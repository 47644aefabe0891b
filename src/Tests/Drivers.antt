-- ===== src/Tests/Drivers.antt =====
-- The election, the headers, the names, the race of two dials and the sidecar at concrete inputs.
use go_download.Base.{
  ◌≡◌, ◌↔◌, refl, pos, true, false, ◌||◌, some, none, List, [], ◌∷◌, bit, suc, length, Bytes, codes,
}
use go_download.Response.{Reply, plan, check_single_status, mode_of, parse_content_range}
use go_download.State.{validator, resumable}
use go_download.Headers.{Header, get, apply_headers, copies_to}
use go_download.Headers.Hosts.{Covers, copies_to↔Covers}
use go_download.Headers.Sent.{IsCarried, apply_headers-IsCarried}
use go_download.Names.{resolve_dest, inside}
use go_download.Names.Inside.{IsInside, resolve_dest-IsInside}
use go_download.Election.{Try, elected, elect}
use go_download.Election.Answers.{is_usable, elect-is_usable}
use go_download.Dial.{
  Race, primary, fallback, due, returns, exhausted, handle, Reach, here, next_event,
  started_primary,
}
use go_download.Dial.Ends.{failures, Reach-under_way, Reach-exhausted}
use go_download.Sched.{next, snapshot}
use go_download.System.{hands_out, start_fresh}
use go_download.Session.{
  Origin, Session, opened, open_session, state_of, Acts, idle, next_act, works, snaps, saves,
}
use go_download.Session.Truth.{InPlace, Acts-InPlace}

abbrev same_name : Bytes → Bytes
same_name s = s

abbrev caller : Header
caller = (codes "Cookie", codes "a=b" ∷ []) ∷ (codes "Accept", codes "x" ∷ []) ∷ []

cookie_withheld :
    get
      (codes "Cookie")
      (apply_headers same_name (some (codes "a.example")) (some (codes "b.example")) caller [])
    ≡ none
unfolding apply_headers get
cookie_withheld = refl

cookie_kept :
    get
      (codes "Cookie")
      (apply_headers same_name (some (codes "a.example")) (some (codes "cdn.a.example")) caller [])
    ≡ some (codes "a=b" ∷ [])
unfolding apply_headers get
cookie_kept = refl

apply_headers-IsCarried_example :
    IsCarried same_name
      (some (codes "a.example"))
      (some (codes "b.example"))
      caller
      []
      (codes "Cookie")
      (get
        (codes "Cookie")
        (apply_headers same_name (some (codes "a.example")) (some (codes "b.example")) caller []))
apply_headers-IsCarried_example =
    apply_headers-IsCarried same_name (some (codes "a.example")) (some (codes "b.example")) caller
      [] (codes "Cookie")

copies_to↔Covers_example :
    (copies_to (codes "a.example") (codes "cdn.a.example") ≡ true)
    ↔ Covers (codes "a.example") (codes "cdn.a.example")
copies_to↔Covers_example = copies_to↔Covers (codes "a.example") (codes "cdn.a.example")

parent_dropped :
    resolve_dest (codes "out") true (codes "../../etc/passwd") none
    ≡ inside (codes "out") (codes "passwd")
unfolding resolve_dest
parent_dropped = refl

resolve_dest-IsInside_example :
    IsInside (codes "out") (resolve_dest (codes "out") true (codes "../../etc/passwd") none)
resolve_dest-IsInside_example =
    resolve_dest-IsInside (codes "out") true (codes "../../etc/passwd") none

abbrev empty_file : Reply
empty_file = record {
  status = 416;
  content_range = codes "bytes */0";
  content_length = pos 0;
  etag = [];
  last_modified = [];
}

abbrev tries : List Try
tries =
    (record { sleep_fails = false; build_fails = false; reply = none; cancelled = false })
    ∷ (record {
      sleep_fails = false;
      build_fails = false;
      reply = some empty_file;
      cancelled = false;
    })
    ∷ []

driver_defs : Unit {0}
unfolding elect plan mode_of validator parse_content_range
driver_defs = tt

second_elected : elect tries ≡ elected empty_file
unfolding driver_defs
second_elected = refl

stays_open : (plan false empty_file).initial_usable ≡ true
unfolding driver_defs
stays_open = refl

is_single : (plan false empty_file).multipart ≡ false
unfolding driver_defs
is_single = refl

elect-is_usable_example :
    is_usable (check_single_status empty_file true (plan false empty_file).total) ≡ true
elect-is_usable_example = elect-is_usable false tries second_elected is_single stays_open

-- The timer starts the fallback, which fails before the preferred dial does.
abbrev both_dial : Race
both_dial = (handle true due started_primary).0

abbrev one_left : Race
one_left = (handle true (returns fallback false) both_dial).0

both_reached : Reach true both_dial
unfolding handle
both_reached = next_event due here tt refl

one_reached : Reach true one_left
unfolding handle
one_reached = next_event (returns fallback false) both_reached refl refl

still_due : one_left.primary_pending ≡ true
unfolding handle
still_due = refl

Reach-under_way_example : (one_left.primary_pending || one_left.fallback_pending) ≡ true
Reach-under_way_example = Reach-under_way one_reached

gives_up : (handle true (returns primary false) one_left).1 ≡ exhausted
unfolding handle
gives_up = refl

Reach-exhausted_example :
    let s = (handle true (returns primary false) one_left).0 in
    (failures primary s.failed ≡ 1)
    × (failures fallback s.failed ≡ bit true)
    × (length s.failed ≡ suc (bit true))
Reach-exhausted_example = Reach-exhausted (returns primary false) one_reached still_due gives_up

abbrev origin : Origin
origin = record {
  sidecar = none;
  part_size = some (pos 0);
  total = 8;
  source_id = [];
  etag = codes "\"a\"";
  last_modified = [];
  min_size = 1;
  parts = 2;
  invalidate_fails = false;
  truncate_fails = false;
}

abbrev begun : Session
begun = record { system = start_fresh 8 1 2; sidecar = none; held = none }

begins : open_session origin ≡ opened begun
unfolding open_session
begins = refl

abbrev working : Session
working = record begun { system = record begun.system { sched = (next 0 begun.system.sched).0 } }

abbrev holding : Session
holding = record working { held = some (snapshot working.system.sched) }

abbrev flushed : Session
flushed = record holding {
  sidecar = some (state_of origin (snapshot working.system.sched));
  held = none;
}

flush_run : Acts origin begun flushed
unfolding resumable
flush_run =
    next_act
      (next_act (next_act idle (works begun working.system (hands_out 0 begun.system)))
        (snaps working refl))
      (saves holding (snapshot working.system.sched) refl)

Acts-InPlace_example : InPlace 8 flushed.sidecar flushed.system.disk
Acts-InPlace_example = Acts-InPlace origin begins flush_run
