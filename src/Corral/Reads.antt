-- ===== src/Corral/Reads.antt =====
-- crates/kaze-sidecar/src/plugins/corral/mod.rs: the loop that reads a connection.
use kaze.Base.{
  ◌≡◌, refl, ap, ◌∙◌, List, [], ◌∷◌, ◌++◌, Bool, true, false, Option, none, some, Outcome, ok, err,
  panic,
}
use kaze.Protocol.Packet.{Packet}

-- What a `select!` on the next packet, the clock and the shutdown comes to; a packet comes with what
-- `ctx.send` makes of it.
pub data Read (Err : Type 0) : Type 0 where
  packet : Packet → Outcome Err (Unit {0}) → Read Err
  failed : Err → Read Err
  closed timed_out shutting_down : Read Err

-- What is handed to the pipeline, and how the loop ends; `none` is a loop that still reads.
abbrev pub Forwarded : Type 0 → Type 0
Forwarded Err = List Packet × Option (Outcome Err (Unit {0}))

-- `ctx.send` is given a packet, and then the others.
abbrev pub also : {Err : Type 0} → Packet → Forwarded Err → Forwarded Err
also p r = (p ∷ r.0, r.1)

-- `ctx.send(…).await?`, and what comes then.
sent : {Err : Type 0} → Packet → Outcome Err (Unit {0}) → Forwarded Err → Forwarded Err
sent p (ok t) rest = also p rest
sent p (err e) rest = (p ∷ [], some (err e))
sent p panic rest = (p ∷ [], some panic)

-- The `while` loop of `main_loop_inner`.
unfoldable pub read_loop : {Err : Type 0} → List (Read Err) → Forwarded Err
unfolding sent
read_loop [] = ([], none)
read_loop (packet p o ∷ rs) = sent p o (read_loop rs)
read_loop (failed e ∷ rs) = ([], some (err e))
read_loop (closed ∷ rs) = ([], some (ok tt))
read_loop (timed_out ∷ rs) = ([], some (ok tt))
read_loop (shutting_down ∷ rs) = ([], some (ok tt))

-- `first_request` and then the loop, with a pending time or without.
unfoldable pub main_loop_inner : {Err : Type 0} → Bool → List (Read Err) → Forwarded Err
unfolding sent
main_loop_inner false rs = read_loop rs
main_loop_inner true [] = ([], none)
main_loop_inner true (packet p o ∷ rs) = sent p o (read_loop rs)
main_loop_inner true (failed e ∷ rs) = ([], some (err e))
main_loop_inner true (closed ∷ rs) = ([], some (ok tt))
main_loop_inner true (timed_out ∷ rs) = ([], some (ok tt))
main_loop_inner true (shutting_down ∷ rs) = ([], some (ok tt))

-- How the loop ends, where it does not go on.
abbrev pub ending : {Err : Type 0} → Read Err → Option (Outcome Err (Unit {0}))
ending (packet p (ok t)) = none
ending (packet p (err e)) = some (err e)
ending (packet p panic) = some panic
ending (failed e) = some (err e)
ending _ = some (ok tt)

abbrev pub as_reads : {Err : Type 0} → List Packet → List (Read Err)
as_reads [] = []
as_reads (p ∷ ps) = packet p (ok tt) ∷ as_reads ps

-- The packet at which the loop ends was given to `ctx.send`.
abbrev pub last_given : {Err : Type 0} → Read Err → List Packet
last_given (packet p o) = p ∷ []
last_given _ = []

read_loop-as_reads :
    {Err : Type 0} (ps : List Packet) (r : Read Err) (rs : List (Read Err))
    (o : Outcome Err (Unit {0}))
    → ending r ≡ some o
    → read_loop (as_reads ps ++ (r ∷ rs)) ≡ (ps ++ last_given r, some o)
unfolding read_loop
read_loop-as_reads [] (packet p (ok t)) rs o h = absurd (cc h)
read_loop-as_reads [] (packet p (err e)) rs o h = ap (λ x. (p ∷ [], x)) h
read_loop-as_reads [] (packet p panic) rs o h = ap (λ x. (p ∷ [], x)) h
read_loop-as_reads [] (failed e) rs o h = ap (λ x. ([], x)) h
read_loop-as_reads [] closed rs o h = ap (λ x. ([], x)) h
read_loop-as_reads [] timed_out rs o h = ap (λ x. ([], x)) h
read_loop-as_reads [] shutting_down rs o h = ap (λ x. ([], x)) h
read_loop-as_reads (p ∷ ps) r rs o h = ap (also p) (read_loop-as_reads ps r rs o h)

-- A pending time makes no difference to what is read.
main_loop_inner-pending :
    {Err : Type 0} (rs : List (Read Err)) → main_loop_inner true rs ≡ read_loop rs
unfolding main_loop_inner read_loop
main_loop_inner-pending [] = refl
main_loop_inner-pending (packet p o ∷ rs) = refl
main_loop_inner-pending (failed e ∷ rs) = refl
main_loop_inner-pending (closed ∷ rs) = refl
main_loop_inner-pending (timed_out ∷ rs) = refl
main_loop_inner-pending (shutting_down ∷ rs) = refl

-- With a pending time or without, the loop hands on the packets that are read before anything ends it,
-- in their order, and then ends: well, unless the connection failed or a packet could not be handed on,
-- which is then the last that was given to `ctx.send`. Nothing behind that is read.
pub main_loop_inner-as_reads :
    {Err : Type 0} (pending : Bool) (ps : List Packet) (r : Read Err) (rs : List (Read Err))
    (o : Outcome Err (Unit {0}))
    → ending r ≡ some o
    → main_loop_inner pending (as_reads ps ++ (r ∷ rs)) ≡ (ps ++ last_given r, some o)
unfolding main_loop_inner
main_loop_inner-as_reads false ps r rs o h = read_loop-as_reads ps r rs o h
main_loop_inner-as_reads true ps r rs o h =
    main_loop_inner-pending (as_reads ps ++ (r ∷ rs)) ∙ read_loop-as_reads ps r rs o h
