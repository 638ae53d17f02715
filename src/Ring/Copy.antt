-- ===== src/Ring/Copy.antt =====
-- Byte by byte: what the copies into and out of the ring hold.
use libsdrgg.Prelude.{
  ℕ, zero, suc, ◌+◌, ◌-◌, ◌≤◌, ◌<◌, List, [], ◌∷◌, ◌++◌, ◌≡◌, refl, ◌∙◌, ap, sym, false, ◌⊎◌, inl,
  inr, arith, length, get_or, set, take, drop, length-take, length-drop, leb, if◌then◌else◌,
  length-set, get_or-set_self, get_or-set_ne,
}
use libsdrgg.Ring.{memcpy, ring_size}

pub length-memcpy :
    (dst : List ℕ) (off : ℕ) (src : List ℕ) → length (memcpy dst off src) ≡ length dst
length-memcpy dst off [] = refl
length-memcpy dst off (b ∷ bs) = length-memcpy (set dst off b) (off + 1) bs ∙ length-set dst off b

-- Below and above the copied range nothing changes.
pub memcpy_below :
    (dst : List ℕ) (off : ℕ) (src : List ℕ) (i : ℕ)
    → i < off
    → get_or (memcpy dst off src) i 0 ≡ get_or dst i 0
memcpy_below dst off [] i h = refl
memcpy_below dst off (b ∷ bs) i h =
    memcpy_below (set dst off b) (off + 1) bs i (omega arith)
    ∙ get_or-set_ne dst {i = off} {j = i} b 0 (omega arith)

pub memcpy_above :
    (dst : List ℕ) (off : ℕ) (src : List ℕ) (i : ℕ)
    → off + length src ≤ i
    → get_or (memcpy dst off src) i 0 ≡ get_or dst i 0
memcpy_above dst off [] i h = refl
memcpy_above dst off (b ∷ bs) i h =
    memcpy_above (set dst off b) (off + 1) bs i (omega arith)
    ∙ get_or-set_ne dst {i = off} {j = i} b 0 (omega arith)

-- Inside it is the source.
pub memcpy_inside :
    (dst : List ℕ) (off : ℕ) (src : List ℕ) (j : ℕ)
    → j < length src
    → off + length src ≤ length dst
    → get_or (memcpy dst off src) (off + j) 0 ≡ get_or src j 0
memcpy_inside dst off [] j h fits = elim h [ ]
memcpy_inside dst off (b ∷ bs) zero h fits =
    let same : off + 0 ≡ off = omega arith in
    rw same (
      memcpy_below (set dst off b) (off + 1) bs off (omega arith)
      ∙ get_or-set_self dst off b 0 (omega arith))
memcpy_inside dst off (b ∷ bs) (suc j) h fits =
    let same : off + suc j ≡ off + 1 + j = omega arith in
    rw same (
      memcpy_inside (set dst off b) (off + 1) bs j (omega arith)
        (omega (arith, length-set dst off b)))

module _ {ℓ} {A : Type ℓ} where
  pub get_or-take :
      (n : ℕ) (xs : List A) (i : ℕ) (d : A) → i < n → get_or (take n xs) i d ≡ get_or xs i d
  get_or-take zero xs i d h = elim h [ ]
  get_or-take (suc n) [] i d h = refl
  get_or-take (suc n) (x ∷ xs) zero d h = refl
  get_or-take (suc n) (x ∷ xs) (suc i) d h = get_or-take n xs i d (omega arith)

  pub get_or-drop :
      (n : ℕ) (xs : List A) (i : ℕ) (d : A) → get_or (drop n xs) i d ≡ get_or xs (n + i) d
  get_or-drop zero xs i d = let same : 0 + i ≡ i = omega arith in rw same refl
  get_or-drop (suc n) [] i d = refl
  get_or-drop (suc n) (x ∷ xs) i d =
      let same : suc n + i ≡ suc (n + i) = omega arith in rw same (get_or-drop n xs i d)

  pub get_or-append_left :
      (xs ys : List A) (i : ℕ) (d : A) → i < length xs → get_or (xs ++ ys) i d ≡ get_or xs i d
  get_or-append_left [] ys i d h = elim h [ ]
  get_or-append_left (x ∷ xs) ys zero d h = refl
  get_or-append_left (x ∷ xs) ys (suc i) d h = get_or-append_left xs ys i d (omega arith)

  pub get_or-append_right :
      (xs ys : List A) (j : ℕ) (d : A) → get_or (xs ++ ys) (length xs + j) d ≡ get_or ys j d
  get_or-append_right [] ys j d = let same : 0 + j ≡ j = omega arith in rw same refl
  get_or-append_right (x ∷ xs) ys j d =
      let same : suc (length xs) + j ≡ suc (length xs + j) = omega arith in
      rw same (get_or-append_right xs ys j d)

leb-false : {a b : ℕ} → b < a → leb a b ≡ false
leb-false h = ground arith

-- The two copies of `ring_write`, at offset `w`.
abbrev pub wrapped : List ℕ → ℕ → List ℕ → List ℕ
wrapped dst w bytes =
    if leb (length bytes) (ring_size - w)
    then memcpy dst w bytes
    else memcpy (memcpy dst w (take (ring_size - w) bytes)) 0 (drop (ring_size - w) bytes)

module _ (dst : List ℕ) (w : ℕ) (bytes : List ℕ) (whole : length dst ≡ ring_size)
    (inside : w < ring_size) (short : length bytes ≤ ring_size) where
  abbrev once : List ℕ
  once = memcpy dst w (take (ring_size - w) bytes)

  pub length-wrapped : length (wrapped dst w bytes) ≡ ring_size
  length-wrapped = ground (
    arith,
    whole,
    length-memcpy dst w bytes,
    length-memcpy dst w (take (ring_size - w) bytes),
    length-memcpy once 0 (drop (ring_size - w) bytes),
  )

  -- Where the copy does not wrap.
  pub fits_inside :
      (j : ℕ)
      → length bytes ≤ ring_size - w
      → j < length bytes
      → get_or (wrapped dst w bytes) (w + j) 0 ≡ get_or bytes j 0
  fits_inside j fits h = ground (arith, whole, memcpy_inside dst w bytes j)

  pub fits_outside :
      (p : ℕ)
      → length bytes ≤ ring_size - w
      → (p < w) ⊎ (w + length bytes ≤ p)
      → get_or (wrapped dst w bytes) p 0 ≡ get_or dst p 0
  fits_outside p fits (inl h) = ground (arith, memcpy_below dst w bytes p h)
  fits_outside p fits (inr h) = ground (arith, memcpy_above dst w bytes p h)

  -- Where it wraps: up to the end, and from the start on.
  pub wraps_first :
      (j : ℕ)
      → ring_size - w < length bytes
      → j < ring_size - w
      → get_or (wrapped dst w bytes) (w + j) 0 ≡ get_or bytes j 0
  wraps_first j wraps h =
      let part = take (ring_size - w) bytes in
      let size : length part ≡ ring_size - w = omega (arith, length-take (ring_size - w) bytes) in
      rw (leb-false wraps, wrapped)
        (memcpy_above once 0 (drop (ring_size - w) bytes) (w + j)
            (omega (arith, length-drop (ring_size - w) bytes))
          ∙ memcpy_inside dst w part j (omega arith) (omega arith)
          ∙ get_or-take (ring_size - w) bytes j 0 h)

  pub wraps_second :
      (j : ℕ)
      → ring_size - w < length bytes
      → ring_size - w + j < length bytes
      → get_or (wrapped dst w bytes) j 0 ≡ get_or bytes (ring_size - w + j) 0
  wraps_second j wraps h =
      let rest = drop (ring_size - w) bytes in
      let size : length rest ≡ length bytes - (ring_size - w) = length-drop (ring_size - w) bytes in
      let same : 0 + j ≡ j = omega arith in
      rw (leb-false wraps, wrapped)
        (ap (λ x. get_or (memcpy once 0 rest) x 0) (sym same)
          ∙ memcpy_inside once 0 rest j (omega arith)
              (omega (arith, length-memcpy dst w (take (ring_size - w) bytes)))
          ∙ get_or-drop (ring_size - w) bytes j 0)

  pub wraps_outside :
      (p : ℕ)
      → ring_size - w < length bytes
      → p < w
      → length bytes - (ring_size - w) ≤ p
      → get_or (wrapped dst w bytes) p 0 ≡ get_or dst p 0
  wraps_outside p wraps below above =
      rw (leb-false wraps, wrapped)
        (memcpy_above once 0 (drop (ring_size - w) bytes) p
            (omega (arith, length-drop (ring_size - w) bytes))
          ∙ memcpy_below dst w (take (ring_size - w) bytes) p below)
