-- ===== src/RateLimit/Limits.antt =====
-- Which messages the rate limit lets through.
use Prim.Native.String.{String}
use kaze.Base.{
  ℕ, ◌≡◌, refl, arith, List, [], ◌∷◌, Bool, true, false, not, ◌&&◌, if◌then◌else◌, Bool-cases,
  Option, none, some, ◌⊎◌, inl, inr, ◌↔◌,
}
use kaze.Protocol.Message.{Message, ident, is_local}
use kaze.RateLimit.{Limiter, LimitKey, RateLimit, get, refused, acquire_one, serve, by_key, joined}

-- The limiter of a key, if it has one, grants its permit.
abbrev pub Passes : (Limiter → Bool) → Option Limiter → Type 0
Passes grants none = Unit
Passes grants (some l) = grants l ≡ true

abbrev pub of_ident : ℕ → LimitKey
of_ident i = record { ident = some i; body_type = none }

abbrev pub of_type : String → LimitKey
of_type t = record { ident = none; body_type = some t }

abbrev pub of_both : ℕ → String → LimitKey
of_both i t = record { ident = some i; body_type = some t }

all_false :
    (b0 b1 b2 b3 : Bool)
    → ((if b0 then false else (not b1 && not b2 && not b3)) ≡ true)
      ↔ ((b0 ≡ false) × (b1 ≡ false) × (b2 ≡ false) × (b3 ≡ false))
all_false b0 b1 b2 b3 = ((λ h. ground arith), (λ h. ground arith))

module _ (grants : Limiter → Bool) where
  Passes-iff : (o : Option Limiter) → (refused grants o ≡ false) ↔ Passes grants o
  unfolding refused
  Passes-iff none = ((λ h. tt), (λ h. refl))
  Passes-iff (some l) = ((λ h. ground arith), (λ h. ground arith))

  no_keys :
      (es : List (LimitKey × Limiter)) (i : ℕ) (t : String)
      → by_key grants es i t ≡ joined grants es i t
  unfolding by_key joined get refused
  no_keys [] i t = refl
  no_keys (e ∷ es) i t = refl

  -- Every limiter that a message falls under grants its permit, each as far as it is set: that of
  -- all messages, that of its sender, that of its type and that of the two together.
  abbrev pub Admitted : RateLimit → ℕ → String → Type 0
  Admitted r i t =
      Passes grants r.total
      × Passes grants (get (of_ident i) r.per_msg)
      × Passes grants (get (of_type t) r.per_msg)
      × Passes grants (get (of_both i t) r.per_msg)

  -- A message is admitted exactly when every limiter that it falls under grants its permit.
  pub acquire_one_lem :
      (r : RateLimit) (i : ℕ) (t : String) → (acquire_one grants r i t ≡ true) ↔ Admitted r i t
  unfolding acquire_one joined
  acquire_one_lem r i t = rw (no_keys r.per_msg i t) (
      let (a, b) =
        all_false (refused grants r.total) (refused grants (get (of_ident i) r.per_msg))
          (refused grants (get (of_type t) r.per_msg))
          (refused grants (get (of_both i t) r.per_msg)) in
      (
        (λ h.
            let (h0, h1, h2, h3) = a h in
            ((Passes-iff _).0 h0, (Passes-iff _).0 h1, (Passes-iff _).0 h2, (Passes-iff _).0 h3)),
        (λ p. b (
          (Passes-iff _).1 p.0,
          (Passes-iff _).1 p.1,
          (Passes-iff _).1 p.2,
          (Passes-iff _).1 p.3,
        )),
      ))

  -- A message that is not for the host passes; one for the host passes, if every limiter that it
  -- falls under grants its permit, and is dropped otherwise. What passes is unchanged.
  pub serve_lem :
      (r : RateLimit) (msg : Message)
      → ((is_local msg.destination ≡ false) × (serve grants r msg ≡ some msg))
        ⊎ ((is_local msg.destination ≡ true)
            × Admitted r (ident msg.source) msg.packet.hdr.body_type
            × (serve grants r msg ≡ some msg))
        ⊎ ((is_local msg.destination ≡ true)
            × (¬ Admitted r (ident msg.source) msg.packet.hdr.body_type)
            × (serve grants r msg ≡ none))
  unfolding serve
  serve_lem r msg =
      let (sound, complete) = acquire_one_lem r (ident msg.source) msg.packet.hdr.body_type in
      elim (Bool-cases (is_local msg.destination)) [
        | inr away ↦ inl (away, rw away refl)
        | inl here ↦
            elim (Bool-cases (acquire_one grants r (ident msg.source) msg.packet.hdr.body_type)) [
              | inl grant ↦ inr (inl (here, sound grant, rw (here, grant) refl))
              | inr refuse ↦
                  inr (inr (here, (λ a. cc (complete a, refuse)), rw (here, refuse) refl))
            ]
      ]
