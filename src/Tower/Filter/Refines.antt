-- ===== src/Tower/Filter/Refines.antt =====
-- The polled filters do what the awaited ones of `kaze-service` say.
use kaze.Base.{ℕ, ◌≡◌, refl, ◌∙◌, Outcome, ok, err, panic, ◌>>=◌, Option, none, some}
use kaze.Service.{map_err, filter_chain, rest}
use kaze.Tower.Future.{Poll, pending, ready, Service}
use kaze.Tower.Future.Resolves.{Resolves, Answers, goes_through, same_poll}
use kaze.Tower.Filter.{
  FilterFuture, filter_call, service_call, filter, stack, identity, poll_filter, service_poll,
  stacked_poll, poll, poll_stack, func_filter, func_poll, FilterError, filtered, errored, refused,
  served,
}

-- A poll function that polls a filter and then a service, whose outcome it turns by `of`.
module _ {T M R A E E' : Type 0} (into : E → E') (F : Service T E (Option M)) (S : Service M E' R)
    (of : Outcome E' R → Outcome E' (Option A))
    (whole : FilterFuture F.Future S.State S.Future
      → Poll (FilterFuture F.Future S.State S.Future) E' (Option A))
    (waits : (a a' : S.Future)
      → S.poll a ≡ pending a'
      → whole (service_call a) ≡ pending (service_call a'))
    (done : (a : S.Future) (r : Outcome E' R)
      → S.poll a ≡ ready r
      → whole (service_call a) ≡ ready (of r))
    (first : (s : S.State) (ff : F.Future)
      → whole (filter_call ff s)
        ≡ poll_filter into
            (λ s req. (S.call s req).0)
            (λ sf. whole (service_call sf))
            s
            (F.poll ff)) where
  served_Resolves :
      (n : ℕ) (sf : S.Future) (r : Outcome E' R)
      → Resolves S.poll n sf r
      → (k : ℕ) × Resolves whole k (service_call sf) (of r)
  served_Resolves n sf r h =
      goes_through S.poll whole (λ x. service_call x) waits r (of r) (λ a e. (0, done a r e)) n sf h

  filter_waits :
      (s : S.State) (a a' : F.Future)
      → F.poll a ≡ pending a'
      → whole (filter_call a s) ≡ pending (filter_call a' s)
  unfolding poll_filter
  filter_waits s a a' e = first s a ∙ rw e refl

  -- What a request comes to that the filter answers with `r`.
  after_filter :
      (g : M → Outcome E' R)
      → Answers S g
      → (r : Outcome E (Option M)) (s : S.State) (ff : F.Future) → F.poll ff ≡ ready r
      → (k : ℕ) × Resolves whole k
          (filter_call ff s)
          (map_err into r >>= λ m. rest (λ m. of (g m)) m)
  unfolding poll_filter map_err rest
  after_filter g answers (ok (some req)) s ff e =
      let (n, h) = answers s req in
      let (k, h') = served_Resolves n _ _ h in
      (k, same_poll whole k _ (service_call (S.call s req).0) _ (first s ff ∙ rw e refl) h')
  after_filter g answers (ok none) s ff e = (0, first s ff ∙ rw e refl)
  after_filter g answers (err x) s ff e = (0, first s ff ∙ rw e refl)
  after_filter g answers panic s ff e = (0, first s ff ∙ rw e refl)

  both_answer :
      (f : T → Outcome E (Option M)) (g : M → Outcome E' R)
      → Answers F f
      → Answers S g
      → (s : F.State) (t : S.State) (req : T)
      → (k : ℕ) × Resolves whole k
          (filter_call (F.call s req).0 t)
          (filter_chain into f (λ m. of (g m)) req)
  unfolding filter_chain
  both_answer f g hf hg s t req =
      let (n, h) = hf s req in
      goes_through F.poll whole (λ x. filter_call x t) (filter_waits t) (f req) _
        (after_filter g hg (f req) t) n (F.call s req).0 h

module _ {T M R E E' : Type 0} (into : E → E') (F : Service T E (Option M)) where
  -- A service behind a filter, where both answer every request in the end, answers every request
  -- in the end: with what the awaited `FilterChain` of the two says, the service's answer wrapped
  -- in `Some`.
  pub filter-Answers :
      (S : Service M E' R) (f : T → Outcome E (Option M)) (g : M → Outcome E' R)
      → Answers F f
      → Answers S g
      → Answers (filter into F S) (filter_chain into f (λ m. g m >>= λ a. ok (some a)))
  unfolding poll service_poll kaze.Tower.Filter.some_of kaze.Tower.Filter.call
  filter-Answers S f g hf hg (s, t) req =
      both_answer into F S (λ r. r >>= λ a. ok (some a)) (poll into F S) (λ a a' e. rw e refl)
        (λ a r e. rw e refl) (λ s ff. refl) f g hf hg s t req

  -- A filter behind a filter answers every request in the end, if both do, with what the awaited
  -- `FilterChain` of the two says.
  pub stack-Answers :
      (S : Service M E' (Option R)) (f : T → Outcome E (Option M)) (g : M → Outcome E' (Option R))
      → Answers F f
      → Answers S g
      → Answers (stack into F S) (filter_chain into f g)
  unfolding poll_stack stacked_poll kaze.Tower.Filter.same_of kaze.Tower.Filter.call
  stack-Answers S f g hf hg (s, t) req =
      both_answer into F S (λ r. r) (poll_stack into F S) (λ a a' e. rw e refl) (λ a r e. rw e refl)
        (λ s ff. refl) f g hf hg s t req
