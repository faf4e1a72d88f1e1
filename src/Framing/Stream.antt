-- ===== src/Framing/Stream.antt =====
-- Reading a stream does not depend on its chunks.
use open_autonomy.Prelude.{
  ℕ, zero, suc, ◌-◌, ◌≤◌, ◌<◌, ◌≡◌, refl, sym, ap, ◌∙◌, List, [], ◌∷◌, ◌++◌, some, arith, All,
  length, take, drop, leb, Bool-cases, inl, inr, append_assoc, length-append, length-take,
  length-drop,
}
use open_autonomy.Framing.{Bytes, Chunks, read, read_one, read_until, first_byte, prepend}

-- The bytes of a stream
unfoldable pub contents : Chunks → Bytes
contents [] = []
contents (chunk ∷ chunks) = chunk ++ contents chunks

-- No chunk is empty.
abbrev pub IsStream : Chunks → Type 0
IsStream = All (λ chunk. 0 < length chunk)

take-drop : {A : Type 0} (n : ℕ) (xs : List A) → take n xs ++ drop n xs ≡ xs
take-drop zero xs = refl
take-drop (suc n) [] = refl
take-drop (suc n) (x ∷ xs) = ap (λ r. x ∷ r) (take-drop n xs)

-- What `read` gives and what it leaves are the stream.
pub contents-read : (n : ℕ) (s : Chunks) → (read n s).0 ++ contents (read n s).1 ≡ contents s
unfolding read contents
contents-read n [] = refl
contents-read n (chunk ∷ chunks) = elim (Bool-cases (leb (length chunk) n)) [
  | inl whole ↦ rw whole refl
  | inr part ↦ rw part (
      sym (append_assoc (take n chunk) (drop n chunk) (contents chunks))
      ∙ ap (λ c. c ++ contents chunks) (take-drop n chunk))
]

pub length-read : (n : ℕ) (s : Chunks) → length (read n s).0 ≤ n
unfolding read
length-read n [] = omega arith
length-read n (chunk ∷ chunks) = ground (arith, length-take n chunk)

-- Unless it is at its end, a stream gives something.
pub read_some :
    (n : ℕ) (s : Chunks) → IsStream s → 0 < length (contents s) → 0 < n → 0 < length (read n s).0
unfolding read contents
read_some n [] i h hn = h
read_some n (chunk ∷ chunks) (hc, i) h hn = ground (arith, length-take n chunk)

pub read-IsStream : (n : ℕ) (s : Chunks) → IsStream s → IsStream (read n s).1
unfolding read
read-IsStream n [] i = tt
read-IsStream n (chunk ∷ chunks) (hc, i) = elim (Bool-cases (leb (length chunk) n)) [
  | inl whole ↦ rw whole i
  | inr part ↦ rw part (ground (arith, length-drop n chunk), i)
]

tail_eq : {x y : ℕ} {xs ys : Bytes} → x ∷ xs ≡ y ∷ ys → xs ≡ ys
tail_eq h = cc

head_eq : (x y : ℕ) (xs ys : Bytes) {cs ds : Bytes} → x ∷ xs ≡ y ∷ ys → cs ≡ ds → x ∷ cs ≡ y ∷ ds
head_eq x y xs ys h e = cc

one_byte :
    (bs : Bytes) (b : ℕ) (rest more : Bytes)
    → length bs ≤ 1
    → 0 < length bs
    → bs ++ more ≡ b ∷ rest
    → (first_byte bs ≡ some b) × (more ≡ rest)
one_byte [] b rest more h h0 e = elim h0 [ ]
one_byte (x ∷ []) b rest more h h0 e = (cc, cc)
one_byte (x ∷ y ∷ bs) b rest more h h0 e = absurd (omega arith)

-- Reading one byte
pub read_one_lem :
    (b : ℕ) (rest : Bytes) (s : Chunks)
    → IsStream s
    → contents s ≡ b ∷ rest
    → ((read_one s).0 ≡ some b) × ((contents (read_one s).1 ≡ rest) × IsStream (read_one s).1)
unfolding read_one
read_one_lem b rest s i h =
    let (first, left) =
      one_byte (read 1 s).0 b rest (contents (read 1 s).1) (length-read 1 s)
        (read_some 1 s i (omega (arith, ap (length {A = ℕ}) h)) (omega arith))
        (contents-read 1 s ∙ h) in
    (first, (left, read-IsStream 1 s i))

-- A front of another list is its front too, if it is no longer.
split_front :
    (part front rest more : Bytes)
    → length part ≤ length front
    → part ++ more ≡ front ++ rest
    → (part ++ drop (length part) front ≡ front) × (more ≡ drop (length part) front ++ rest)
split_front [] front rest more h e = (refl, e)
split_front (x ∷ part) [] rest more h e = absurd (omega arith)
split_front (x ∷ part) (y ∷ front) rest more h e =
    let (joined, left) = split_front part front rest more (omega arith) (tail_eq e) in
    (head_eq x y (part ++ more) (front ++ rest) e joined, left)

-- With fuel for each byte, `read_until` gives the first bytes of a stream that has as many.
pub read_until_lem :
    (fuel n : ℕ) (front rest : Bytes) (s : Chunks)
    → n ≤ fuel
    → length front ≡ n
    → IsStream s
    → contents s ≡ front ++ rest
    → (s' : Chunks) × ((read_until fuel n s ≡ some (front, s'))
        × ((contents s' ≡ rest) × IsStream s'))
unfolding read_until
read_until_lem fuel zero [] rest s hf hl i h = (s, (refl, (h, i)))
read_until_lem fuel zero (x ∷ front) rest s hf hl i h = absurd (omega arith)
read_until_lem zero (suc n) front rest s hf hl i h = absurd (omega arith)
read_until_lem (suc fuel) (suc n) front rest s hf hl i h =
    let part = (read (suc n) s).0 in
    let some_left : 0 < length (contents s) =
      omega (arith, ap (length {A = ℕ}) h, length-append {0} front rest) in
    let (joined, left) =
      split_front part front rest (contents (read (suc n) s).1)
        (omega (arith, length-read (suc n) s)) (contents-read (suc n) s ∙ h) in
    let (s', (e, after)) =
      read_until_lem fuel (suc n - length part) (drop (length part) front) rest (read (suc n) s).1
        (omega (arith, read_some (suc n) s i some_left (omega arith)))
        (omega (arith, length-drop {0} (length part) front)) (read-IsStream (suc n) s i) left in
    (s', (ap (prepend part) e ∙ ap (λ f. some (f, s')) joined, after))
