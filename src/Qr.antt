-- ===== src/Qr.antt =====
-- src/qr/qr_generator.cpp: the picture of a QR code, row by row. libqrencode, libpng and the file
-- system are arguments.
mod Tests
use titan_share.Prelude.{
  ℕ, zero, suc, ◌+◌, ◌-◌, ◌*◌, ◌/◌, ◌%◌, ◌≤◌, ◌<◌, ltb, leb, ◌==◌, ◌≡◌, refl, sym, ap, ◌∙◌, Bool,
  true, false, ◌&&◌, ◌||◌, not, if◌then◌else◌, Option, none, some, List, [], ◌∷◌, ◌++◌, length,
  get_elem?, Bytes, arith, Option-cases, inl, inr, ◌⊎◌,
}

-- The fields of `QRcode`: the modules of a side, and a byte for each module, row by row.
pub record QrCode : Type 0 where
  pub width : ℕ
  pub modules : Bytes

abbrev pub scale : ℕ
scale = 8

abbrev pub margin : ℕ
margin = 4

unfoldable pub img_size : QrCode → ℕ
img_size qr = (qr.width + margin * 2) * scale

-- `qr->data[i] & 1`; a read past the array is taken as light.
unfoldable pub is_dark : QrCode → ℕ → Bool
is_dark qr i = elim (get_elem? qr.modules i) [ none ↦ false | some b ↦ b % 2 == 1 ]

-- The grey value of one pixel. A position left of or above the margin is negative in the source.
unfoldable pub pixel : QrCode → ℕ → ℕ → ℕ
pixel qr x y =
    if leb margin (x / scale)
      && (ltb (x / scale - margin) qr.width
          && (leb margin (y / scale) && ltb (y / scale - margin) qr.width))
    then (if is_dark qr ((y / scale - margin) * qr.width + (x / scale - margin)) then 0 else 255)
    else 255

-- `for (i = 0; i < n; i++)` over a row or over the rows.
unfoldable pub for_each {ℓ} : {A : Type ℓ} → (ℕ → A) → ℕ → ℕ → List A
for_each f i zero = []
for_each f i (suc n) = f i ∷ for_each f (suc i) n

unfoldable pub image : QrCode → List Bytes
image qr = for_each (λ y. for_each (λ x. pixel qr x y) 0 (img_size qr)) 0 (img_size qr)

-- What the libraries give to one call of `generate`.
pub record Libraries : Type 0 where
  pub encode_string : Bytes → Option QrCode
  pub file_opens : Bytes → Bool
  pub png_starts : Bool
  -- `setjmp` gives 0, and no writer jumps back.
  pub png_writes : Bool

-- Whether it worked, and the picture written.
unfoldable pub generate : Libraries → Bytes → Bytes → Bool × Option (List Bytes)
generate libs json_data output_path = elim (libs.encode_string json_data) [
  | none ↦ (false, none)
  | some qr ↦
      if not (libs.file_opens output_path)
      then (false, none)
      else if not libs.png_starts
      then (false, none)
      else if not libs.png_writes
      then (false, none)
      else (true, some (image qr))
]

get_elem?-for_each {ℓ} :
    {A : Type ℓ} (f : ℕ → A) (i n k : ℕ) → k < n → get_elem? (for_each f i n) k ≡ some (f (i + k))
unfolding for_each
get_elem?-for_each f i zero k h = absurd (omega arith)
get_elem?-for_each f i (suc n) zero h = ap (λ j. some (f j)) (omega arith)
get_elem?-for_each f i (suc n) (suc k) h =
    get_elem?-for_each f (suc i) n k (omega arith) ∙ ap (λ j. some (f j)) (omega arith)

-- Pixel `k` of line `m`, or nothing.
abbrev pub pixel_at : List Bytes → ℕ → ℕ → Option ℕ
pixel_at rows k m = elim (get_elem? rows m) [ none ↦ none | some row ↦ get_elem? row k ]

pixel_at-row :
    (rows : List Bytes) (row : Bytes) (k m : ℕ)
    → get_elem? rows m ≡ some row
    → pixel_at rows k m ≡ get_elem? row k
pixel_at-row rows row k m e = rw (e, pixel_at) refl

pixel_at-image :
    (qr : QrCode) (x y : ℕ)
    → x < img_size qr
    → y < img_size qr
    → pixel_at (image qr) x y ≡ some (pixel qr x y)
unfolding image
pixel_at-image qr x y hx hy =
    pixel_at-row (image qr) _ x y
      (get_elem?-for_each (λ y. for_each (λ x. pixel qr x y) 0 (img_size qr)) 0 (img_size qr) y hy)
    ∙ get_elem?-for_each (λ x. pixel qr x (0 + y)) 0 (img_size qr) x hx
    ∙ ap (λ i. some (pixel qr i (0 + y))) (omega arith)
    ∙ ap (λ j. some (pixel qr x j)) (omega arith)

square_of : (k a : ℕ) → a < 8 → ((margin + k) * scale + a) / scale ≡ margin + k
square_of k a h = omega arith

in_square : (qr : QrCode) (k a : ℕ) → k < qr.width → a < 8 → (margin + k) * scale + a < img_size qr
unfolding img_size
in_square qr k a h h' = omega arith

pixel_square :
    (qr : QrCode) (i j a b : ℕ)
    → i < qr.width
    → j < qr.width
    → a < 8
    → b < 8
    → pixel qr ((margin + i) * scale + a) ((margin + j) * scale + b)
      ≡ (if is_dark qr (j * qr.width + i) then 0 else 255)
unfolding pixel
pixel_square qr i j a b hi hj ha hb =
    let back_i : margin + i - margin ≡ i = omega arith in
    let back_j : margin + j - margin ≡ j = omega arith in
    let inside : (leb margin (margin + i)
          && (ltb i qr.width && (leb margin (margin + j) && ltb j qr.width)))
        ≡ true =
      ground arith in
    rw (square_of i a ha, square_of j b hb, back_i, back_j, inside) refl

-- Each module of the code is a square of eight by eight pixels in the picture, black exactly if it
-- is dark, shifted by the margin of four modules.
pub image_square :
    (qr : QrCode) (i j a b : ℕ)
    → i < qr.width
    → j < qr.width
    → a < 8
    → b < 8
    → pixel_at (image qr) ((margin + i) * scale + a) ((margin + j) * scale + b)
      ≡ some (if is_dark qr (j * qr.width + i) then 0 else 255)
image_square qr i j a b hi hj ha hb =
    pixel_at-image qr _ _ (in_square qr i a hi ha) (in_square qr j b hj hb)
    ∙ ap (λ p. some p) (pixel_square qr i j a b hi hj ha hb)

outside_lem :
    (qr : QrCode) (x y : ℕ)
    → ((x < 32) ⊎ (8 * (4 + qr.width) ≤ x)) ⊎ ((y < 32) ⊎ (8 * (4 + qr.width) ≤ y))
    → pixel qr x y ≡ 255
unfolding pixel
outside_lem qr x y outside = ground arith

-- A pixel whose column is left or right of all modules, or whose row is above or below them, is
-- white.
pub image_margin :
    (qr : QrCode) (x y : ℕ)
    → x < img_size qr
    → y < img_size qr
    → ((x < 32) ⊎ (8 * (4 + qr.width) ≤ x)) ⊎ ((y < 32) ⊎ (8 * (4 + qr.width) ≤ y))
    → pixel_at (image qr) x y ≡ some 255
image_margin qr x y hx hy outside =
    pixel_at-image qr x y hx hy ∙ ap (λ p. some p) (outside_lem qr x y outside)
