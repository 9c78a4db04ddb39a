-- ===== src/StreamManager/Idle.antt =====
-- Which super peers `timer_check` of protocol/tracker/tracker_streamer_manager.cpp forgets.
use rabbitstreamer.Prelude.{
  ℕ, suc, refl, ◌∙◌, dec_lt, ◌≤◌, ◌<◌, ◌+◌, ◌-◌, ◌≡◌, ltb, List, [], ◌∷◌, Option, none, some,
  if◌then◌else◌, arith,
}
use rabbitstreamer.StdMap.{find}
use rabbitstreamer.StdMap.Laws.{IsSorted, IsSorted-mono, find_below}
use rabbitstreamer.StreamManager.{
  ChannelNode, StreamManager, str_rank, max_idle_time_sec, check_idle, timer_check, get_node,
}
use rabbitstreamer.StreamManager.Laws.{IsValid, AllFull}

check_idle-IsSorted :
    (clock : ℕ → ℕ) (i lo : ℕ) (m : StreamManager)
    → IsSorted str_rank lo m
    → IsSorted str_rank lo (check_idle clock i m)
unfolding check_idle
check_idle-IsSorted clock i lo [] s = tt
check_idle-IsSorted clock i lo ((k, n) ∷ m) s = ground (
  arith,
  check_idle-IsSorted clock (suc i) (suc (str_rank k)) m s.1,
  IsSorted-mono str_rank lo (suc (str_rank k)) (check_idle clock (suc i) m),
)

check_idle-AllFull :
    (clock : ℕ → ℕ) (i : ℕ) (m : StreamManager) → AllFull m → AllFull (check_idle clock i m)
unfolding check_idle
check_idle-AllFull clock i [] f = tt
check_idle-AllFull clock i ((k, n) ∷ m) f = ground (arith, check_idle-AllFull clock (suc i) m f.1)

-- The node of `key` afterwards, at the reading of the clock for it.
abbrev kept : ℕ → Option ChannelNode → Option ChannelNode
kept now none = none
kept now (some node) =
    if ltb max_idle_time_sec (now - node.last_recv_report_time) then none else some node

check_idle-find :
    (clock : ℕ → ℕ) (i lo : ℕ) (key : List ℕ) (m : StreamManager)
    → IsSorted str_rank lo m
    → (j : ℕ) × (find str_rank key (check_idle clock i m) ≡ kept (clock j) (find str_rank key m))
unfolding check_idle find
check_idle-find clock i lo key [] s = (i, refl)
check_idle-find clock i lo key ((k, n) ∷ m) s = elim (dec_lt (str_rank k) (str_rank key)) [
  | yes h ↦
      let (j, e) = check_idle-find clock (suc i) (suc (str_rank k)) key m s.1 in
      (j, ground (arith, e))
  | no h ↦
      let gone =
        find_below str_rank (suc (str_rank k)) key (check_idle clock (suc i) m)
          (check_idle-IsSorted clock (suc i) (suc (str_rank k)) m s.1) (omega arith) in
      (i, ground (arith, gone))
]

-- Where the clock stands at `late` or earlier whenever the loop of `timer_check` reads it, a super
-- peer that last reported at most 100 seconds before `late` is found afterwards as before, and the
-- map stays in order.
pub get_node-timer_check :
    (clock : ℕ → ℕ) (late : ℕ) (key : List ℕ) (m : StreamManager) (node : ChannelNode)
    → IsValid m
    → ((i : ℕ) → clock i ≤ late)
    → get_node key m ≡ some node
    → late ≤ node.last_recv_report_time + max_idle_time_sec
    → IsValid (timer_check clock m) × (get_node key (timer_check clock m) ≡ some node)
unfolding timer_check get_node
get_node-timer_check clock late key m node v c e h =
    let (j, f) = check_idle-find clock 0 0 key m v.sorted in
    (
      record {
        sorted = check_idle-IsSorted clock 0 0 m v.sorted;
        full = check_idle-AllFull clock 0 m v.full;
      },
      f ∙ ground (arith, e, c j),
    )

-- Where the clock stands at `early` or later whenever the loop of `timer_check` reads it, a super
-- peer that last reported more than 100 seconds before `early` is not found afterwards, and the
-- map stays in order.
pub timer_check-forgets :
    (clock : ℕ → ℕ) (early : ℕ) (key : List ℕ) (m : StreamManager) (node : ChannelNode)
    → IsValid m
    → ((i : ℕ) → early ≤ clock i)
    → get_node key m ≡ some node
    → node.last_recv_report_time + max_idle_time_sec < early
    → IsValid (timer_check clock m) × (get_node key (timer_check clock m) ≡ none)
unfolding timer_check get_node
timer_check-forgets clock early key m node v c e h =
    let (j, f) = check_idle-find clock 0 0 key m v.sorted in
    (
      record {
        sorted = check_idle-IsSorted clock 0 0 m v.sorted;
        full = check_idle-AllFull clock 0 m v.full;
      },
      f ∙ ground (arith, e, c j),
    )
