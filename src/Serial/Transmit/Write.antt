-- ===== src/Serial/Transmit/Write.antt =====
-- Each operation of a writer keeps the invariant of the transmit buffer.
use c2usb.Base.{ℕ, ◌+◌, ◌≤◌, ◌<◌, ◌≡◌, refl, ◌∙◌, sym, ap, ◌⊎◌, inl, inr}
use c2usb.Base.{Bool, true, false, not, List, [], ◌++◌, length, Option, none, some, arith}
use mathlib.Core.List.{append-nil, append_assoc}
use mathlib.Core.Option.{some-ne-none}
use c2usb.Message.Transfer.{Span}
use c2usb.Serial.Memory.{Memory, load, store, load-add, load-store_outside}
use c2usb.Serial.Transmit.{TxBuffer, consuming_flag}
use c2usb.Serial.Transmit.{pos_of, set_pos, buffer_of, side_of}
use c2usb.Serial.Transmit.Invariant.{Phase, quiet, fresh, busy, Calm, Seen}

-- Bytes below the flag lie in the side.
pub pos_bound :
    {t : TxBuffer} {f : Option Span} {written sent : List ℕ} (idx : Bool)
    → Phase t f written sent
    → pos_of idx t < consuming_flag
    → pos_of idx t ≤ t.size
unfolding pos_of
pos_bound false (quiet e p q h) lt = omega arith
pos_bound true (quiet e p q h) lt = omega arith
pos_bound false (fresh false n e p pos le o h) lt = omega arith
pos_bound false (fresh true n e p pos le o h) lt = omega arith
pos_bound true (fresh false n e p pos le o h) lt = omega arith
pos_bound true (fresh true n e p pos le o h) lt = omega arith
pos_bound false (busy false n m x e p pos le q ml s lo en h) lt = omega arith
pos_bound false (busy true n m x e p pos le q ml s lo en h) lt = omega arith
pos_bound true (busy false n m x e p pos le q ml s lo en h) lt = omega arith
pos_bound true (busy true n m x e p pos le q ml s lo en h) lt = omega arith

abbrev Apart : ℕ → ℕ → ℕ → ℕ → Type 0
Apart at n off m = (at + n ≤ off) ⊎ (off + m ≤ at)

kept :
    (written sent bs : List ℕ) (mem : Memory) (off p a q b : ℕ)
    → Apart p a off (length bs)
    → Apart q b off (length bs)
    → written ≡ sent ++ (load mem p a ++ load mem q b)
    → written ≡ sent ++ (load (store mem off bs) p a ++ load (store mem off bs) q b)
kept written sent bs mem off p a q b d e h =
    rw (load-store_outside mem off bs p a d, load-store_outside mem off bs q b e) h

-- A copy behind the bytes of the side that the writer has seen.
pub Phase-store :
    (t : TxBuffer) (f : Option Span) (written sent bs : List ℕ) (idx : Bool) (pos : ℕ)
    → Calm t f
    → t.size < consuming_flag
    → pos + length bs ≤ t.size
    → Seen idx pos t
    → Phase t f written sent
    → Phase (record t { memory = store t.memory (buffer_of idx t + pos) bs }) f written sent
unfolding pos_of buffer_of side_of
Phase-store t f written sent bs idx pos c b le s (quiet e p q h) = quiet e p q h
Phase-store t f written sent bs idx pos c b le s (fresh false n e p po l o h) =
    absurd (omega (arith, c e))
Phase-store t f written sent bs idx pos c b le s (fresh true n e p po l o h) =
    absurd (omega (arith, c e))
Phase-store t f written sent bs false pos c b le s (busy false n m x e p po l q ml sd lo en h) =
    busy false n m x e p po l q ml sd lo en (
      kept written sent bs t.memory (0 + pos) x.ptr x.len t.size m (inl (omega arith))
        (inr (omega arith)) h)
Phase-store t f written sent bs false pos c b le s (busy true n m x e p po l q ml sd lo en h) =
    busy true n m x e p po l q ml sd lo en (
      kept written sent bs t.memory (0 + pos) x.ptr x.len 0 m (inr (omega arith))
        (inl (omega arith)) h)
Phase-store t f written sent bs true pos c b le s (busy false n m x e p po l q ml sd lo en h) =
    busy false n m x e p po l q ml sd lo en (
      kept written sent bs t.memory (t.size + pos) x.ptr x.len t.size m (inl (omega arith))
        (inl (omega arith)) h)
Phase-store t f written sent bs true pos c b le s (busy true n m x e p po l q ml sd lo en h) =
    busy true n m x e p po l q ml sd lo en (
      kept written sent bs t.memory (t.size + pos) x.ptr x.len 0 m (inl (omega arith))
        (inl (omega arith)) h)

extended :
    (written sent xs bs : List ℕ) (mem : Memory) (off pos w : ℕ)
    → load mem (off + pos) w ≡ bs
    → written ≡ sent ++ (xs ++ load mem off pos)
    → written ++ bs ≡ sent ++ (xs ++ load mem off (pos + w))
extended written sent xs bs mem off pos w ld h =
    rw (h, load-add mem off pos w, ld)
      (append_assoc sent (xs ++ load mem off pos) bs
        ∙ ap (sent ++◌) (append_assoc xs (load mem off pos) bs))

extended_empty :
    (written sent bs : List ℕ) (mem : Memory) (off pos w : ℕ)
    → load mem (off + pos) w ≡ bs
    → pos ≡ 0
    → written ≡ sent
    → written ++ bs ≡ sent ++ load mem off (pos + w)
unfolding load
extended_empty written sent bs mem off pos w ld z h =
    extended written sent [] bs mem off pos w ld (rw (z, append-nil sent) h)

claimed :
    (written sent : List ℕ) (mem : Memory) (a b n k : ℕ)
    → n ≡ k
    → written ≡ sent ++ load mem a n
    → written ≡ sent ++ (load mem a k ++ load mem b 0)
unfolding load
claimed written sent mem a b n k e h = rw (append-nil (load mem a k), sym e) h

-- The writer publishes its bytes.
pub Phase-publish :
    (t : TxBuffer) (f : Option Span) (written sent bs : List ℕ) (idx : Bool) (pos w : ℕ)
    → Calm t f
    → t.size < consuming_flag
    → pos_of idx t ≡ pos
    → 0 < w
    → pos + w ≤ t.size
    → load t.memory (buffer_of idx t + pos) w ≡ bs
    → Phase t f written sent
    → Phase (set_pos idx (pos + w) t) f (written ++ bs) sent
unfolding pos_of set_pos buffer_of side_of
Phase-publish t f written sent bs false pos w c b sp po le ld (quiet e p q h) =
    fresh false (pos + w) e refl (omega arith) le q
      (extended_empty written sent bs t.memory 0 pos w ld (omega arith) h)
Phase-publish t f written sent bs true pos w c b sp po le ld (quiet e p q h) =
    fresh true (pos + w) e refl (omega arith) le p
      (extended_empty written sent bs t.memory t.size pos w ld (omega arith) h)
Phase-publish t f written sent bs idx pos w c b sp po le ld (fresh false n e p pz l o h) =
    absurd (omega (arith, c e))
Phase-publish t f written sent bs idx pos w c b sp po le ld (fresh true n e p pz l o h) =
    absurd (omega (arith, c e))
Phase-publish t f written sent bs false pos w c b sp po le ld
      (busy false n m x e p pz l q ml sd lo en h) =
    absurd (omega arith)
Phase-publish t f written sent bs true pos w c b sp po le ld
      (busy false n m x e p pz l q ml sd lo en h) =
    busy false n (pos + w) x e p pz l refl le sd lo en (
      extended written sent (load t.memory x.ptr x.len) bs t.memory t.size pos w ld
        (rw (sym sp, q) h))
Phase-publish t f written sent bs false pos w c b sp po le ld
      (busy true n m x e p pz l q ml sd lo en h) =
    busy true n (pos + w) x e p pz l refl le sd lo en
      (extended written sent (load t.memory x.ptr x.len) bs t.memory 0 pos w ld (rw (sym sp, q) h))
Phase-publish t f written sent bs true pos w c b sp po le ld
      (busy true n m x e p pz l q ml sd lo en h) =
    absurd (omega arith)

-- The writer claims the side that it filled.
pub Phase-claim :
    (t : TxBuffer) (written sent : List ℕ) (idx : Bool) (new_pos : ℕ)
    → 0 < new_pos
    → new_pos ≤ t.size
    → pos_of idx t ≡ new_pos
    → pos_of (not idx) t ≡ 0
    → Phase t none written sent
    → Phase
        (set_pos idx (new_pos + consuming_flag) t)
        (some (record { ptr = buffer_of idx t; len = new_pos }))
        written
        sent
unfolding pos_of set_pos buffer_of side_of
Phase-claim t written sent false k po le sp o (fresh false n e p pz l q h) =
    busy false k 0 _ refl refl po le o (omega arith) (ground arith) (omega arith) (omega arith)
      (claimed written sent t.memory 0 t.size n k (omega arith) h)
Phase-claim t written sent true k po le sp o (fresh true n e p pz l q h) =
    busy true k 0 _ refl refl po le o (omega arith) (ground arith) (omega arith) (omega arith)
      (claimed written sent t.memory t.size 0 n k (omega arith) h)
Phase-claim t written sent false k po le sp o (fresh true n e p pz l q h) = absurd (omega arith)
Phase-claim t written sent true k po le sp o (fresh false n e p pz l q h) = absurd (omega arith)
Phase-claim t written sent false k po le sp o (quiet e p q h) = absurd (omega arith)
Phase-claim t written sent true k po le sp o (quiet e p q h) = absurd (omega arith)
Phase-claim t written sent idx k po le sp o (busy jdx n m x e p pz l q ml sd lo en h) =
    absurd (some-ne-none _ (sym e))
