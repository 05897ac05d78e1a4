-- ===== src/Tracker/Loop.antt =====
-- What the tracker's loop answers, over any sequence of events.
use kaze.Base.{
  ℕ, ◌≡◌, ◌≢◌, refl, arith, List, [], ◌∷◌, ◌++◌, if◌then◌else◌, ◌==◌, Bool-cases, Option-cases,
  Option, none, some, inl, inr, ◌⊎◌, ==_iff, ap, ◌∙◌, subst,
}
use kaze.Extern.Map.{MapCrate}
use kaze.Extern.DelayQueue.{DelayQueueCrate}
use kaze.Protocol.Hdr.{Hdr, rsp, seq, dst_ident, ret_timeout, to_u32}
use kaze.Protocol.Packet.{from_retcode, seq_or_zero}
use kaze.Protocol.Message.{PacketWithAddr}
use kaze.Context.{send_local}
use kaze.Tracker.{
  Action, nothing, insert, remove, Event, received, expired, shutdown, Info, LoopState,
  handle_action, handle_expired, step,
}

seq_or_zero_lem : (hdr : Hdr) (n : ℕ) → seq hdr ≡ some n → seq_or_zero hdr ≡ n
unfolding seq_or_zero
seq_or_zero_lem hdr n e = rw (e, seq_or_zero) refl

-- No event of the list removes the number `n`; none inserts it.
abbrev pub NoRemove : {K : Type 0} → ℕ → Event K → Type 0
NoRemove n (received (some (remove m))) = m ≢ n
NoRemove n _ = Unit

abbrev pub NoInsert : {K : Type 0} → ℕ → Event K → Type 0
NoInsert n (received (some (insert hdr))) = seq hdr ≢ some n
NoInsert n _ = Unit

abbrev pub Each : {K : Type 0} → (Event K → Type 0) → List (Event K) → Type 0
Each P [] = Unit
Each P (e ∷ es) = P e × Each P es

module _ (D : DelayQueueCrate) (M : MapCrate ℕ (Info D.Key)) (local exit_timeout : ℕ) where
  -- The rounds of the loop over a list of events; `none` once it has ended.
  unfoldable pub run :
      LoopState D M local exit_timeout
      → List (Event D.Key)
      → Option (LoopState D M local exit_timeout)
  run s [] = some s
  run s (e ∷ es) = elim (step D M local exit_timeout s e) [ none ↦ none | some s' ↦ run s' es ]

  abbrev pub State : Type 0
  State = LoopState D M local exit_timeout

  -- The header kept under a number goes by that number.
  abbrev pub Tracks : State → Type 0
  Tracks s = (n : ℕ) (info : Info D.Key) → M.get s.rpc_map n ≡ some info → seq info.hdr ≡ some n

  -- The entry of `m` in a map that one number was inserted into.
  pub get_insert :
      (m : M.Map) (n j : ℕ) (info : Info D.Key)
      → M.get (M.insert m n info) j ≡ (if n == j then some info else M.get m j)
  get_insert m n j info = elim (Bool-cases (n == j)) [
    | inl t ↦ rw t (
        subst (λ k. M.get (M.insert m n info) k ≡ some info) ((==_iff n j).0 t)
          (M.get-insert_self m n info))
    | inr f ↦ rw f (M.get-insert_ne m n j info (λ e. ground arith))
  ]

  pub get_remove :
      (m : M.Map) (n j : ℕ) → M.get (M.remove m n) j ≡ (if n == j then none else M.get m j)
  get_remove m n j = elim (Bool-cases (n == j)) [
    | inl t ↦
        rw t (subst (λ k. M.get (M.remove m n) k ≡ none) ((==_iff n j).0 t) (M.get-remove_self m n))
    | inr f ↦ rw f (M.get-remove_ne m n j (λ e. ground arith))
  ]

  -- The map after an action.
  abbrev pub after : State → Action → State
  after s a = handle_action D M local exit_timeout s a

  pub map_remove : (s : State) (n : ℕ) → (after s (remove n)).rpc_map ≡ M.remove s.rpc_map n
  unfolding handle_action
  map_remove s n = elim (Option-cases (M.get s.rpc_map n)) [
    | inl e ↦ rw e refl
    | inr (info, e) ↦ rw e refl
  ]

  pub sent_remove : (s : State) (n : ℕ) → (after s (remove n)).sent ≡ s.sent
  unfolding handle_action
  sent_remove s n = elim (Option-cases (M.get s.rpc_map n)) [
    | inl e ↦ rw e refl
    | inr (info, e) ↦ rw e refl
  ]

  pub map_insert :
      (s : State) (hdr : Hdr) (n : ℕ)
      → seq hdr ≡ some n
      → (info : Info D.Key) × (info.hdr ≡ hdr)
        × ((after s (insert hdr)).rpc_map ≡ M.insert s.rpc_map n info)
        × (D.value (after s (insert hdr)).queue info.key ≡ some n)
  unfolding handle_action
  map_insert s hdr n e = (
    record { hdr = hdr; key = (D.insert s.queue n hdr.timeout).0 },
    refl,
    rw e refl,
    rw e (D.insert_self s.queue n hdr.timeout),
  )

  insert_none : (s : State) (hdr : Hdr) → seq hdr ≡ none → after s (insert hdr) ≡ s
  unfolding handle_action
  insert_none s hdr e = rw e refl

  pub map_expired :
      (s : State) (n : ℕ) → (handle_expired D M local exit_timeout s n).rpc_map ≡ s.rpc_map
  unfolding handle_expired
  map_expired s n = elim (Option-cases (M.get s.rpc_map n)) [
    | inl e ↦ rw e refl
    | inr (info, e) ↦ rw e refl
  ]

  -- The answer to a request that has timed out: a response to its number, for the host.
  abbrev pub IsTimeoutFor : ℕ → PacketWithAddr → Type 0
  IsTimeoutFor n (p, addr) =
      (p.hdr.ret_code ≡ 2)
      × (p.hdr.rpc_type ≡ some (rsp n))
      × (p.hdr.route_type ≡ some (dst_ident local))
      × (addr ≡ none)

  -- An entry that expires is answered while its number is in the map, and not otherwise.
  pub expired_answers :
      (s : State) (n : ℕ) (info : Info D.Key)
      → M.get s.rpc_map n ≡ some info
      → seq info.hdr ≡ some n
      → (p : PacketWithAddr) × ((handle_expired D M local exit_timeout s n).sent
          ≡ s.sent ++ (p ∷ []))
        × IsTimeoutFor n p
  unfolding handle_expired send_local from_retcode to_u32
  expired_answers s n info e h = (
    send_local local (from_retcode info.hdr ret_timeout),
    rw e refl,
    (refl, ap (λ k. some (rsp k)) (seq_or_zero_lem info.hdr n h), refl, refl),
  )

  pub expired_silent :
      (s : State) (n : ℕ)
      → M.get s.rpc_map n ≡ none
      → (handle_expired D M local exit_timeout s n).sent ≡ s.sent
  unfolding handle_expired
  expired_silent s n e = rw e refl

  -- What one round does to the map.
  abbrev pub MapStep : M.Map → Event D.Key → M.Map → Type 0
  MapStep m e m' =
      (m' ≡ m)
      ⊎ ((hdr : Hdr) × (n : ℕ) × (info : Info D.Key) × (e ≡ received (some (insert hdr)))
          × (seq hdr ≡ some n)
          × (info.hdr ≡ hdr)
          × (m' ≡ M.insert m n info))
      ⊎ ((n : ℕ) × (e ≡ received (some (remove n))) × (m' ≡ M.remove m n))

  pub same_state : (s s' : State) → some s ≡ some s' → s' ≡ s
  same_state s s' e = cc

  pub step-MapStep :
      (s s' : State) (e : Event D.Key)
      → step D M local exit_timeout s e ≡ some s'
      → MapStep s.rpc_map e s'.rpc_map
  unfolding step
  step-MapStep s s' (received none) h = cc
  step-MapStep s s' (received (some nothing)) h =
      inl (ap (λ (t : State). t.rpc_map) (same_state _ _ h) ∙ unfold handle_action in refl)
  step-MapStep s s' (received (some (insert hdr))) h = elim (Option-cases (seq hdr)) [
    | inl e ↦ inl (ap (λ (t : State). t.rpc_map) (same_state _ _ h ∙ insert_none s hdr e))
    | inr (n, e) ↦
        let (info, same, m, _) = map_insert s hdr n e in
        inr
          (inl (hdr, n, info, refl, e, same, ap (λ (t : State). t.rpc_map) (same_state _ _ h) ∙ m))
  ]
  step-MapStep s s' (received (some (remove n))) h =
      inr (inr (n, refl, ap (λ (t : State). t.rpc_map) (same_state _ _ h) ∙ map_remove s n))
  step-MapStep s s' (expired none) h = cc
  step-MapStep s s' (expired (some (k, n))) h =
      inl (ap (λ (t : State). t.rpc_map) (same_state _ _ h) ∙ map_expired _ n)
  step-MapStep s s' shutdown h = elim (Bool-cases s.exit_send) [
    | inl t ↦ cc (h, t)
    | inr f ↦ inl (ap (λ (t : State). t.rpc_map) (same_state _ _ (rw f at h)))
  ]
