-- ===== src/Ring/Append.antt =====
-- What a queue holds once a message is written behind its last.
use kaze.Base.{
  ℕ, ◌+◌, ◌^◌, ◌≤◌, ◌<◌, ◌≡◌, refl, sym, ◌∙◌, subst, arith, List, [], ◌∷◌, ◌++◌, length, append-nil,
  append_assoc, ◌⊎◌, inl, inr,
}
use kaze.Extern.Bytes.{to_le_bytes}
use kaze.Ring.Memory.{
  Mem, write_bytes, write_u32, Agree, write-Agree, read-Agree, read_u32-Agree, read-write_bytes,
  read-write_u32,
}
use kaze.Ring.Queue.{mark}
use kaze.Ring.Layout.{
  slot, RecordAt, Stored, Stored-le, Stored-Agree, Stored-snoc, InBounds, bounds-with, Lies,
}
use kaze.Ring.Front.{past_record, past_record-inside, past_record-end, end-cases}
use kaze.Ring.Left.{Marked, Marked-le}
use native.Mathlib.Nat.{mod-eq_of_lt}

-- The bytes with a message at `pos`: first the message is copied, then its length is put in front.
abbrev pub with_record : Mem → ℕ → List ℕ → Mem
with_record m pos x = write_u32 (write_bytes m (pos + 4) x) pos (length x)

write_u32-Agree : (m : Mem) (p n q e : ℕ) → (e ≤ p) ⊎ (p + 4 ≤ q) → Agree m (write_u32 m p n) q e
unfolding write_u32 to_le_bytes
write_u32-Agree m p n q e h = write-Agree m p (to_le_bytes n) q e h

with_record-Agree :
    (m : Mem) (pos : ℕ) (x : List ℕ) (q e : ℕ)
    → (e ≤ pos) ⊎ (pos + slot x ≤ q)
    → Agree m (with_record m pos x) q e
with_record-Agree m pos x q e h i lo hi =
    write_u32-Agree (write_bytes m (pos + 4) x) pos (length x) q e (header h) i lo hi
    ∙ write-Agree m (pos + 4) x q e (body h) i lo hi
  where
    header : (e ≤ pos) ⊎ (pos + slot x ≤ q) → (e ≤ pos) ⊎ (pos + 4 ≤ q)
    header (inl le) = inl le
    header (inr le) = inr (omega arith)

    body : (e ≤ pos) ⊎ (pos + slot x ≤ q) → (e ≤ pos + 4) ⊎ (pos + 4 + length x ≤ q)
    body (inl le) = inl (omega arith)
    body (inr le) = inr (omega arith)

with_record-RecordAt :
    (m : Mem) (pos : ℕ) (x : List ℕ) → length x < 2 ^ 31 → RecordAt (with_record m pos x) pos x
with_record-RecordAt m pos x small = (
  read-write_u32 (write_bytes m (pos + 4) x) pos (length x) ∙ mod-eq_of_lt (omega arith),
  read-Agree (write_bytes m (pos + 4) x) (with_record m pos x) (pos + 4) (length x) (
        write_u32-Agree (write_bytes m (pos + 4) x) pos (length x) (pos + 4) (pos + 4 + length x)
          (inr (omega arith)))
      ∙ read-write_bytes m (pos + 4) x,
)

-- A message behind the last of a straight queue.
module _ (size used head end : ℕ) (bytes : Mem) (msgs : List (List ℕ)) (x : List ℕ) where
  pub straight-append :
      InBounds size head end
      → Stored bytes head msgs end
      → used + head ≡ end
      → end + slot x ≤ size
      → Lies size
          (used + slot x)
          head
          (past_record size end x)
          (with_record bytes end x)
          (msgs ++ (x ∷ []))
  straight-append b st u fits =
      let small = b.size_small in
      let al = b.tail_aligned in
      let pos = b.head_in in
      let stored =
        Stored-snoc (with_record bytes end x) head msgs end x
          (Stored-Agree bytes (with_record bytes end x) head msgs end
            (with_record-Agree bytes end x head end (inl (omega arith))) st)
          (with_record-RecordAt bytes end x (omega arith)) in
      elim (end-cases (end + slot x) size fits) [
        | inl e ↦
            subst
              (λ t. Lies size (used + slot x) head t (with_record bytes end x) (msgs ++ (x ∷ [])))
              (sym (past_record-end size end x e))
              (record {
                bounds =
                    bounds-with size head end head 0 b b.head_in b.head_aligned (omega arith) refl;
                layout = inl (record {
                  end = end + slot x;
                  stored = stored;
                  at_tail = inr (refl, e);
                  used_lem = omega arith;
                });
              })
        | inr lt ↦
            subst
              (λ t. Lies size (used + slot x) head t (with_record bytes end x) (msgs ++ (x ∷ [])))
              (sym (past_record-inside size end x small lt))
              (record {
                bounds =
                    bounds-with size head end head (end + slot x) b b.head_in b.head_aligned lt
                      (omega arith);
                layout = inl (record {
                  end = end + slot x;
                  stored = stored;
                  at_tail = inl (refl, lt);
                  used_lem = omega arith;
                });
              })
      ]

-- A message behind the second part of a wrapped queue, or at the start of a queue that is to wrap.
module _ (size used head tail end : ℕ) (bytes : Mem) (first second : List (List ℕ))
    (x : List ℕ) where
  pub wrapped-append :
      InBounds size head tail
      → Stored bytes head first end
      → Marked size end bytes
      → Stored bytes 0 second tail
      → used + head ≡ end + tail
      → tail + slot x ≤ head
      → Lies size
          (used + slot x)
          head
          (past_record size tail x)
          (with_record bytes tail x)
          ((first ++ second) ++ (x ∷ []))
  wrapped-append b st m st' u fits =
      let small = b.size_small in
      let al = b.tail_aligned in
      let pos = b.head_in in
      let le = Stored-le bytes head first end st in
      let le' = Marked-le size end bytes m in
      let behind = with_record-Agree bytes tail x in
      subst
        (λ t.
          Lies size (used + slot x) head t (with_record bytes tail x)
            ((first ++ second) ++ (x ∷ [])))
        (sym (past_record-inside size tail x small (omega arith)))
        (record {
          bounds =
              bounds-with size head tail head (tail + slot x) b b.head_in b.head_aligned
                (omega arith) (omega arith);
          layout = inr (record {
            first = first;
            second = second ++ (x ∷ []);
            joined = append_assoc first second (x ∷ []);
            end = end;
            stored_first =
                Stored-Agree bytes (with_record bytes tail x) head first end
                  (behind head end (inr fits)) st;
            marked = still m;
            stored_second =
                Stored-snoc (with_record bytes tail x) 0 second tail x
                  (Stored-Agree bytes (with_record bytes tail x) 0 second tail
                    (behind 0 tail (inl (omega arith))) st')
                  (with_record-RecordAt bytes tail x (omega arith));
            apart = fits;
            wrapped_lem = omega arith;
          });
        })
    where
      still : Marked size end bytes → Marked size end (with_record bytes tail x)
      still (inl e) = inl e
      still (inr (lt, k)) =
          let le = Stored-le bytes head first end st in
          inr (
            lt,
            read_u32-Agree bytes (with_record bytes tail x) end
                  (with_record-Agree bytes tail x end (end + 4) (inr (omega arith)))
                ∙ k,
          )

-- A straight queue that wraps: its tail is marked, and the message stands at the start.
module _ (size used head end : ℕ) (bytes : Mem) (msgs : List (List ℕ)) (x : List ℕ) where
  pub straight-wrap :
      InBounds size head end
      → Stored bytes head msgs end
      → used + head ≡ end
      → slot x ≤ head
      → Lies size
          (used + slot x)
          head
          (past_record size 0 x)
          (with_record (write_u32 bytes end mark) 0 x)
          (msgs ++ (x ∷ []))
  straight-wrap b st u fits =
      let pos = b.head_in in
      let pos' = b.tail_in in
      subst
        (λ ms.
          Lies size (used + slot x) head (past_record size 0 x)
            (with_record (write_u32 bytes end mark) 0 x) (ms ++ (x ∷ [])))
        (append-nil msgs)
        (wrapped-append size used head 0 end (write_u32 bytes end mark) msgs [] x
          (bounds-with size head end head 0 b b.head_in b.head_aligned (omega arith) refl)
          (Stored-Agree bytes (write_u32 bytes end mark) head msgs end
            (write_u32-Agree bytes end mark head end (inl (omega arith))) st)
          (inr (pos', read-write_u32 bytes end mark)) starts (omega arith) (omega arith))
    where
      starts : Stored (write_u32 bytes end mark) 0 [] 0
      starts = unfold Stored in refl

-- A straight queue whose last message ends at the queue's end.
module _ (size used head tail : ℕ) (bytes : Mem) (msgs : List (List ℕ)) (x : List ℕ) where
  pub straight-around :
      InBounds size head tail
      → Stored bytes head msgs size
      → tail ≡ 0
      → used + head ≡ size
      → tail + slot x ≤ head
      → Lies size
          (used + slot x)
          head
          (past_record size tail x)
          (with_record bytes tail x)
          (msgs ++ (x ∷ []))
  straight-around b st t u fits =
      subst
        (λ ms.
          Lies size (used + slot x) head (past_record size tail x) (with_record bytes tail x)
            (ms ++ (x ∷ [])))
        (append-nil msgs)
        (wrapped-append size used head tail size bytes msgs [] x b st (inl refl) starts
          (omega arith) fits)
    where
      starts : Stored bytes 0 [] tail
      starts = unfold Stored in sym t
