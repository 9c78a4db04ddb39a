-- ===== src/NpCoordinator/Rounds.antt =====
-- The loops of `get_np_address` in protocol/tracker/tracker_np_manager.cpp: a round that goes on
-- uses up a group, and only peers that can serve are listed.
use rabbitstreamer.Prelude.{
  ◌≢◌, ◌∙◌, ℕ, zero, suc, refl, ◌≤◌, ◌<◌, ◌≡◌, ◌⊎◌, inl, inr, Bool-cases, true, false, ◌==◌, List,
  [], ◌∷◌, Option, none, some, length, length-set, drop, set, All, arith, ◌%◌,
}
use rabbitstreamer.CoreStruct.{md5_len, PeerInfoWithAddr}
use rabbitstreamer.StreamManager.{str_rank, same_text}
use rabbitstreamer.IntervalArray.Queries.{find_block}
use rabbitstreamer.NpCoordinator.{NpNode, NpCoordinator, can_serve, scan, group_at, pick}

-- How many groups have not been picked.
unfoldable pub unused_groups : List (Option ℕ) → ℕ
unused_groups [] = 0
unused_groups (none ∷ gs) = unused_groups gs
unused_groups (some g ∷ gs) = suc (unused_groups gs)

unused_groups-set :
    (gs : List (Option ℕ)) (i : ℕ) → unused_groups (set gs i none) ≤ unused_groups gs
unfolding unused_groups
unused_groups-set [] i = omega arith
unused_groups-set (none ∷ gs) zero = omega arith
unused_groups-set (some g ∷ gs) zero = omega arith
unused_groups-set (none ∷ gs) (suc i) = unused_groups-set gs i
unused_groups-set (some g ∷ gs) (suc i) = omega (arith, unused_groups-set gs i)

-- A group that is picked for the first time.
unused_groups-picked :
    (gs : List (Option ℕ)) (i g : ℕ)
    → group_at gs i ≡ some g
    → unused_groups (set gs i none) < unused_groups gs
unfolding unused_groups group_at
unused_groups-picked [] i g e = ground arith
unused_groups-picked (none ∷ gs) zero g e = ground arith
unused_groups-picked (some h ∷ gs) zero g e = omega arith
unused_groups-picked (none ∷ gs) (suc i) g e = unused_groups-picked gs i g e
unused_groups-picked (some h ∷ gs) (suc i) g e = omega (arith, unused_groups-picked gs i g e)

module _ (rand : ℕ → ℕ) (nonzero : (i : ℕ) → 0 < rand i) where
  pick_next :
      (i left : ℕ) (gs : List (Option ℕ)) (pos : Option ℕ)
      → pick rand i (suc left) gs pos
        ≡ pick rand
            (suc i)
            left
            (set gs (rand i % length gs) none)
            (group_at gs (rand i % length gs))
  unfolding pick
  pick_next i left gs pos = let e : (rand i == 0) ≡ false = ground (arith, nonzero i) in rw e refl

  pub pick-le :
      (i left : ℕ) (gs : List (Option ℕ)) (pos : Option ℕ)
      → (unused_groups (pick rand i left gs pos).1 ≤ unused_groups gs)
        × (length (pick rand i left gs pos).1 ≡ length gs)
  unfolding pick
  pick-le i zero gs pos = (omega arith, refl)
  pick-le i (suc left) gs pos =
      let id = rand i % length gs in
      let rest = pick-le (suc i) left (set gs id none) (group_at gs id) in
      rw (pick_next i left gs pos)
        (omega (arith, rest.0, unused_groups-set gs id), rest.1 ∙ length-set gs id none)

  -- Where the last group that is picked is a new one, one group less is left.
  pub pick-uses :
      (i left : ℕ) (gs : List (Option ℕ)) (pos : Option ℕ) (g : ℕ)
      → 0 < left
      → (pick rand i left gs pos).0 ≡ some g
      → unused_groups (pick rand i left gs pos).1 < unused_groups gs
  pick-uses i zero gs pos g h e = absurd (omega arith)
  pick-uses i (suc zero) gs pos g h e =
      let id = rand i % length gs in
      let picked = rw (pick_next i zero gs pos) at e in
      rw (pick_next i zero gs pos) (unfold pick in unused_groups-picked gs id g picked)
  pick-uses i (suc (suc left)) gs pos g h e =
      let id = rand i % length gs in
      let later = rw (pick_next i (suc left) gs pos) at e in
      rw (pick_next i (suc left) gs pos) (
        omega (
          arith,
          unused_groups-set gs id,
          pick-uses (suc i) (suc left) (set gs id none) (group_at gs id) g (omega arith) later,
        ))

module _ (hash uuid : List ℕ) (block : ℕ) where
  -- A peer that another one can be sent to: it is not that one itself, its channel is the given
  -- one up to what the comparison of hashes reads, and it has the block.
  pub record Serves (node : NpNode) : Type 0 where
    pub another : str_rank node.digits ≢ str_rank uuid
    pub on_channel : same_text md5_len node.channel_id_md5.hash hash ≡ true
    pub has_block : find_block node.interval_array block ≡ true

  can_serve-Serves : (node : NpNode) → can_serve hash uuid block node ≡ true → Serves node
  unfolding can_serve
  can_serve-Serves node e = record {
    another = ground (arith, e);
    on_channel = ground (arith, e);
    has_block = ground (arith, e);
  }

  pub Serves-can_serve : (node : NpNode) → Serves node → can_serve hash uuid block node ≡ true
  unfolding can_serve
  Serves-can_serve node v = ground (arith, v.another, v.on_channel, v.has_block)

  -- The entry is what a peer in the map that serves sent of itself.
  abbrev pub Offers : NpCoordinator → PeerInfoWithAddr → Type 0
  Offers [] info = ⊥
  Offers ((k, node) ∷ m) info =
      (Serves node × (info.core ≡ node.core_info) × (info.address ≡ node.client_address))
      ⊎ Offers m info

  pub Offers-drop :
      (j : ℕ) (m : NpCoordinator) (info : PeerInfoWithAddr) → Offers (drop j m) info → Offers m info
  Offers-drop zero m info o = o
  Offers-drop (suc j) [] info o = o
  Offers-drop (suc j) ((k, node) ∷ m) info o = inr (Offers-drop j m info o)

  pub All-Offers :
      (m : NpCoordinator) (x : List ℕ × NpNode) (l : List PeerInfoWithAddr)
      → All (Offers m) l
      → All (Offers (x ∷ m)) l
  All-Offers m (k, node) [] a = tt
  All-Offers m (k, node) (i ∷ l) a = (inr a.0, All-Offers m (k, node) l a.1)

  pub All-drop :
      (j : ℕ) (m : NpCoordinator) (l : List PeerInfoWithAddr)
      → All (Offers (drop j m)) l
      → All (Offers m) l
  All-drop j m [] a = tt
  All-drop j m (i ∷ l) a = (Offers-drop j m i a.0, All-drop j m l a.1)

  -- A scan lists peers that can serve, and no more than there is room for.
  pub scan_lem :
      (room : ℕ) (m : NpCoordinator)
      → All (Offers m) (scan hash uuid block room m).0
        × (length (scan hash uuid block room m).0 ≤ room)
  unfolding scan
  scan_lem room [] = (tt, omega arith)
  scan_lem zero ((k, node) ∷ m) = (tt, omega arith)
  scan_lem (suc room) ((k, node) ∷ m) = elim (Bool-cases (can_serve hash uuid block node)) [
    | inl yes_it ↦
        let (a, l) = scan_lem room m in
        rw yes_it (
          (
            inl (can_serve-Serves node yes_it, refl, refl),
            All-Offers m (k, node) (scan hash uuid block room m).0 a,
          ),
          omega arith,
        )
    | inr no_it ↦
        let (a, l) = scan_lem (suc room) m in
        rw no_it (All-Offers m (k, node) (scan hash uuid block (suc room) m).0 a, l)
  ]
