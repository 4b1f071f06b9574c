-- ===== src/Gate/Images.antt =====
-- The images that the validator recognizes by their first bytes.
use mould_system_backend.Common.{
  true, Bytes, bytes_eq, bytes_eq→eq, [], ◌∷◌, ◌++◌, ◌≡◌, ◌≢◌, ◌⊎◌, ◌↔◌, inl, inr, refl, sym, arith,
}
use mould_system_backend.Gate.Validator.{
  ImageFormat, unrecognized, jpeg, png, bmp, image_ok, detect_format, format_name,
  validate_image_magic_bytes,
}

-- The bytes that an image of a format begins with.
abbrev pub magic : ImageFormat → Bytes
magic unrecognized = []
magic jpeg = 255 ∷ 216 ∷ 255 ∷ []
magic png = 137 ∷ b'P' ∷ b'N' ∷ b'G' ∷ []
magic bmp = 66 ∷ 77 ∷ []

abbrev pub BeginsAs : ImageFormat → Bytes → Type 0
BeginsAs f image = (rest : Bytes) × (image ≡ magic f ++ rest)

detect-jpeg : (image : Bytes) → detect_format image ≡ jpeg → BeginsAs jpeg image
unfolding detect_format
detect-jpeg [] h = ground arith
detect-jpeg (a ∷ []) h = ground arith
detect-jpeg (a ∷ b ∷ []) h = ground arith
detect-jpeg (a ∷ b ∷ c ∷ rest) h = (rest, ground arith)

detect-png : (image : Bytes) → detect_format image ≡ png → BeginsAs png image
unfolding detect_format
detect-png [] h = ground arith
detect-png (a ∷ []) h = ground arith
detect-png (a ∷ b ∷ []) h = ground arith
detect-png (a ∷ b ∷ c ∷ []) h = ground arith
detect-png (a ∷ b ∷ c ∷ d ∷ rest) h = (rest, ground arith)

detect-bmp : (image : Bytes) → detect_format image ≡ bmp → BeginsAs bmp image
unfolding detect_format
detect-bmp [] h = ground arith
detect-bmp (a ∷ []) h = ground arith
detect-bmp (a ∷ b ∷ rest) h = (rest, ground arith)

detect-begin :
    (f : ImageFormat) (rest : Bytes) → f ≢ unrecognized → detect_format (magic f ++ rest) ≡ f
unfolding detect_format
detect-begin unrecognized rest h = absurd (h refl)
detect-begin jpeg rest h = ground arith
detect-begin png rest h = ground arith
detect-begin bmp rest h = ground arith

ImageFormat-cases : (f : ImageFormat) → (f ≡ unrecognized) ⊎ ((f ≡ jpeg) ⊎ ((f ≡ png) ⊎ (f ≡ bmp)))
ImageFormat-cases unrecognized = inl refl
ImageFormat-cases jpeg = inr (inl refl)
ImageFormat-cases png = inr (inr (inl refl))
ImageFormat-cases bmp = inr (inr (inr refl))

detect-BeginsAs :
    (image : Bytes) → detect_format image ≢ unrecognized → BeginsAs (detect_format image) image
detect-BeginsAs image h = elim (ImageFormat-cases (detect_format image)) [
  | inl e ↦ absurd (h e)
  | inr (inl e) ↦ rw e (detect-jpeg image e)
  | inr (inr (inl e)) ↦ rw e (detect-png image e)
  | inr (inr (inr e)) ↦ rw e (detect-bmp image e)
]

validate-ok :
    (image image_format : Bytes)
    → validate_image_magic_bytes image image_format ≡ image_ok
    → (detect_format image ≢ unrecognized)
      × (bytes_eq (format_name (detect_format image)) image_format ≡ true)
unfolding validate_image_magic_bytes
validate-ok [] image_format h = ground arith
validate-ok (c ∷ cs) image_format h = ground arith

begin-validate :
    (f : ImageFormat) (rest : Bytes)
    → f ≢ unrecognized
    → validate_image_magic_bytes (magic f ++ rest) (format_name f) ≡ image_ok
unfolding validate_image_magic_bytes
begin-validate unrecognized rest h = absurd (h refl)
begin-validate jpeg rest h = rw (validate_image_magic_bytes, detect-begin jpeg rest h) refl
begin-validate png rest h = rw (validate_image_magic_bytes, detect-begin png rest h) refl
begin-validate bmp rest h = rw (validate_image_magic_bytes, detect-begin bmp rest h) refl

validate-of_parts :
    (f : ImageFormat) (rest image image_format : Bytes)
    → f ≢ unrecognized
    → image_format ≡ format_name f
    → image ≡ magic f ++ rest
    → validate_image_magic_bytes image image_format ≡ image_ok
validate-of_parts f rest image image_format h e b = rw (e, b) (begin-validate f rest h)

-- The image passes exactly when the declared format is one of jpeg, png and bmp, and the image begins
-- with the bytes of that format.
pub validate_image_magic_bytes_iff :
    (image image_format : Bytes)
    → (validate_image_magic_bytes image image_format ≡ image_ok)
      ↔ ((f : ImageFormat) × (f ≢ unrecognized) × (image_format ≡ format_name f) × BeginsAs f image)
unfolding validate_image_magic_bytes
validate_image_magic_bytes_iff image image_format = (
  λ h.
      let (known, named) = validate-ok image image_format h in
      (
        detect_format image,
        known,
        sym (bytes_eq→eq (format_name (detect_format image)) image_format named),
        detect-BeginsAs image known,
      ),
  λ (f, known, e, (rest, b)). validate-of_parts f rest image image_format known e b,
)
