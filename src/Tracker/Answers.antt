-- ===== src/Tracker/Answers.antt =====
-- Requests are answered once they time out, and responses stop that.
use kaze.Base.{
  ℕ, ◌≡◌, ◌≢◌, refl, List, [], ◌∷◌, ◌++◌, Bool, true, false, if◌then◌else◌, ◌==◌, Bool-cases,
  Option-cases, none, some, inl, inr, ==_iff, ap, sym, ◌∙◌, subst,
}
use kaze.Extern.Map.{MapCrate}
use kaze.Extern.DelayQueue.{DelayQueueCrate}
use kaze.Protocol.Hdr.{Hdr, seq}
use kaze.Protocol.Message.{PacketWithAddr}
use kaze.Tracker.{insert, remove, Event, received, expired, Info, handle_expired, step}
use kaze.Tracker.Loop.{
  NoRemove, NoInsert, Each, run, State, Tracks, get_insert, get_remove, after, IsTimeoutFor,
  step-MapStep, expired_answers, expired_silent, map_insert, map_remove,
}

some-inj {ℓ} : {A : Type ℓ} {a b : A} → some a ≡ some b → a ≡ b
some-inj e = cc

module _ (D : DelayQueueCrate) (M : MapCrate ℕ (Info D.Key)) (local exit_timeout : ℕ) where
  abbrev pub Known : ℕ → State D M local exit_timeout → Type 0
  Known n s = (info : Info D.Key) × (M.get s.rpc_map n ≡ some info)

  insert-Tracks :
      (m m' : M.Map) (n : ℕ) (info : Info D.Key)
      → m' ≡ M.insert m n info
      → seq info.hdr ≡ some n
      → ((j : ℕ) (i : Info D.Key) → M.get m j ≡ some i → seq i.hdr ≡ some j)
      → (j : ℕ) (i : Info D.Key) → M.get m' j ≡ some i
      → seq i.hdr ≡ some j
  insert-Tracks m m' n info e h keep j i g = elim (Bool-cases (n == j)) [
    | inl t ↦ cc (at, t, h, (==_iff n j).0 t)
    | inr f ↦ keep j i (rw f at at)
  ]
    where
      at : (if n == j then some info else M.get m j) ≡ some i
      at = sym (get_insert D M local exit_timeout m n j info) ∙ ap (λ x. M.get x j) (sym e) ∙ g

  remove-Tracks :
      (m m' : M.Map) (n : ℕ)
      → m' ≡ M.remove m n
      → ((j : ℕ) (i : Info D.Key) → M.get m j ≡ some i → seq i.hdr ≡ some j)
      → (j : ℕ) (i : Info D.Key) → M.get m' j ≡ some i
      → seq i.hdr ≡ some j
  remove-Tracks m m' n e keep j i g = elim (Bool-cases (n == j)) [
    | inl t ↦ cc (at, t)
    | inr f ↦ keep j i (rw f at at)
  ]
    where
      at : (if n == j then none else M.get m j) ≡ some i
      at = sym (get_remove D M local exit_timeout m n j) ∙ ap (λ x. M.get x j) (sym e) ∙ g

  -- Every round of the loop that does not end it keeps each header under its own number.
  pub step-Tracks :
      (s s' : State D M local exit_timeout) (e : Event D.Key)
      → step D M local exit_timeout s e ≡ some s'
      → Tracks D M local exit_timeout s
      → Tracks D M local exit_timeout s'
  step-Tracks s s' e h keep = elim (step-MapStep D M local exit_timeout s s' e h) [
    | inl same ↦ λ j i g. keep j i (ap (λ x. M.get x j) (sym same) ∙ g)
    | inr (inl (hdr, n, info, _, hs, hi, m)) ↦
        insert-Tracks s.rpc_map s'.rpc_map n info m (ap seq hi ∙ hs) keep
    | inr (inr (n, _, m)) ↦ remove-Tracks s.rpc_map s'.rpc_map n m keep
  ]

  known_insert :
      (m m' : M.Map) (n j : ℕ) (info : Info D.Key)
      → m' ≡ M.insert m n info
      → ((i : Info D.Key) × (M.get m j ≡ some i))
      → (i : Info D.Key) × (M.get m' j ≡ some i)
  known_insert m m' n j info e (i, g) = elim (Bool-cases (n == j)) [
    | inl t ↦
        (info, ap (λ x. M.get x j) e ∙ get_insert D M local exit_timeout m n j info ∙ rw t refl)
    | inr f ↦ (i, ap (λ x. M.get x j) e ∙ get_insert D M local exit_timeout m n j info ∙ rw f g)
  ]

  step-Known :
      (n : ℕ) (s s' : State D M local exit_timeout) (e : Event D.Key)
      → step D M local exit_timeout s e ≡ some s'
      → NoRemove n e
      → Known n s
      → Known n s'
  step-Known n s s' e h spared (i, g) = elim (step-MapStep D M local exit_timeout s s' e h) [
    | inl same ↦ (i, ap (λ x. M.get x n) same ∙ g)
    | inr (inl (hdr, k, info, _, _, _, m)) ↦ known_insert s.rpc_map s'.rpc_map k n info m (i, g)
    | inr (inr (k, e', m)) ↦
        let ne : k ≢ n = subst (NoRemove n) e' spared in
        (i, ap (λ x. M.get x n) m ∙ M.get-remove_ne s.rpc_map k n ne ∙ g)
  ]

  step-Unknown :
      (n : ℕ) (s s' : State D M local exit_timeout) (e : Event D.Key)
      → step D M local exit_timeout s e ≡ some s'
      → NoInsert n e
      → M.get s.rpc_map n ≡ none
      → M.get s'.rpc_map n ≡ none
  step-Unknown n s s' e h spared g = elim (step-MapStep D M local exit_timeout s s' e h) [
    | inl same ↦ ap (λ x. M.get x n) same ∙ g
    | inr (inl (hdr, k, info, e', hs, _, m)) ↦
        let ne : seq hdr ≢ some n = subst (NoInsert n) e' spared in
        ap (λ x. M.get x n) m
        ∙ M.get-insert_ne s.rpc_map k n info (λ same. ne (hs ∙ ap (λ t. some t) same))
        ∙ g
    | inr (inr (k, _, m)) ↦
        ap (λ x. M.get x n) m ∙ get_remove D M local exit_timeout s.rpc_map k n ∙ gone (k == n) g
  ]
    where
      gone : (b : Bool) → M.get s.rpc_map n ≡ none → (if b then none else M.get s.rpc_map n) ≡ none
      gone true g = refl
      gone false g = g

  -- An invariant of the rounds is one of the runs.
  run_keeps :
      (Q : Event D.Key → Type 0) (P : State D M local exit_timeout → Type 0)
      → ((s s' : State D M local exit_timeout) (e : Event D.Key)
          → step D M local exit_timeout s e ≡ some s'
          → Q e
          → P s
          → P s')
      → (s s' : State D M local exit_timeout) (es : List (Event D.Key))
      → run D M local exit_timeout s es ≡ some s'
      → Each Q es
      → P s
      → P s'
  unfolding run
  run_keeps Q P keep s s' [] h q p = subst P (some-inj h) p
  run_keeps Q P keep s s' (e ∷ es) h (q, qs) p =
      elim (Option-cases (step D M local exit_timeout s e)) [
        | inl stop ↦ cc (rw (stop, run) at h)
        | inr (t, go) ↦ run_keeps Q P keep t s' es (rw (go, run) at h) qs (keep s t e go q p)
      ]

  any : (es : List (Event D.Key)) → Each (λ e. Unit {0}) es
  any [] = tt
  any (e ∷ es) = (tt, any es)

  -- Where each header is kept under its own number: a request that was inserted is answered when a
  -- timer with its number expires, whatever the loop did in between, as long as it removed no such
  -- number: a response to that number with the timeout code goes to the host, and nothing else is
  -- sent.
  pub timeout_answered :
      (s s' : State D M local exit_timeout) (hdr : Hdr) (n : ℕ) (k : D.Key)
      (es : List (Event D.Key))
      → Tracks D M local exit_timeout s
      → seq hdr ≡ some n
      → run D M local exit_timeout s (received (some (insert hdr)) ∷ es) ≡ some s'
      → Each (NoRemove n) es
      → (p : PacketWithAddr) × (t : State D M local exit_timeout) × (step D M local exit_timeout s'
            (expired (some (k, n)))
          ≡ some t)
        × (t.sent ≡ s'.sent ++ (p ∷ []))
        × IsTimeoutFor D M local exit_timeout n p
  unfolding run step
  timeout_answered s s' hdr n k es keep e h spared =
      let (p, sent, answer) =
        expired_answers D M local exit_timeout popped n known.0 known.1
          (tracked n known.0 known.1) in
      (p, handle_expired D M local exit_timeout popped n, refl, sent, answer)
    where
      first : State D M local exit_timeout
      first = after D M local exit_timeout s (insert hdr)

      popped : State D M local exit_timeout
      popped = record s' { queue = D.expire s'.queue k }

      inserted : Known n first
      inserted =
          let (info, _, m, _) = map_insert D M local exit_timeout s hdr n e in
          (info, ap (λ x. M.get x n) m ∙ M.get-insert_self s.rpc_map n info)

      known : Known n s'
      known = run_keeps (NoRemove n) (Known n) (step-Known n) first s' es h spared inserted

      tracked : Tracks D M local exit_timeout s'
      tracked =
          run_keeps (λ _. Unit {0}) (Tracks D M local exit_timeout)
            (λ a b ev st _ keeps. step-Tracks a b ev st keeps) first s' es h (any es)
            (step-Tracks s first (received (some (insert hdr))) refl keep)

  -- Once a number has been removed, no timer that expires with it is answered, until a request
  -- with that number is inserted again.
  pub response_silences :
      (s s' : State D M local exit_timeout) (n : ℕ) (k : D.Key) (es : List (Event D.Key))
      → run D M local exit_timeout s (received (some (remove n)) ∷ es) ≡ some s'
      → Each (NoInsert n) es
      → (t : State D M local exit_timeout) × (step D M local exit_timeout s' (expired (some (k, n)))
          ≡ some t)
        × (t.sent ≡ s'.sent)
  unfolding run step
  response_silences s s' n k es h spared = (
    handle_expired D M local exit_timeout popped n,
    refl,
    expired_silent D M local exit_timeout popped n (
        run_keeps (NoInsert n) (λ t. M.get t.rpc_map n ≡ none) (step-Unknown n) first s' es h spared
          (ap (λ x. M.get x n) (map_remove D M local exit_timeout s n)
            ∙ M.get-remove_self s.rpc_map n)),
  )
    where
      first : State D M local exit_timeout
      first = after D M local exit_timeout s (remove n)

      popped : State D M local exit_timeout
      popped = record s' { queue = D.expire s'.queue k }

  -- The entry of a request that has timed out stays in the map, with the key of a timer that no
  -- longer runs.
  pub timeout_stays :
      (s : State D M local exit_timeout) (n : ℕ) (info : Info D.Key)
      → M.get s.rpc_map n ≡ some info
      → (t : State D M local exit_timeout) × (step D M local exit_timeout s
            (expired (some (info.key, n)))
          ≡ some t)
        × (M.get t.rpc_map n ≡ some info)
        × (D.value t.queue info.key ≡ none)
  unfolding step handle_expired
  timeout_stays s n info e = (
    handle_expired D M local exit_timeout (record s { queue = D.expire s.queue info.key }) n,
    refl,
    rw e e,
    rw e (D.expire_self s.queue info.key),
  )
