-- ===== src/Protocol/Stream.antt =====
-- The socket of src/usbip_server/usbip_protocol.rs: what the parser uses of tokio's `AsyncReadExt`
-- is a parameter, and the parser runs in a monad that passes the stream on.
use lusbip.Base.{
  ℕ, ◌/◌, ◌%◌, ◌^◌, ◌<◌, ◌≡◌, refl, Bool, true, List, [], ◌∷◌, ◌++◌, append_assoc, length,
  if◌then◌else◌, ◌∙◌, arith,
}

-- The errors of `std::io` that the parser returns.
pub data IoError : Type 0 where
  unexpected_eof : IoError
  unknown_version : ℕ → IoError
  unknown_command : ℕ → IoError
  transfer_failed : IoError

-- A call returns a value or an error, or panics on a failed assertion.
pub data Outcome {ℓ} (A : Type ℓ) : Type ℓ where
  ok : A → Outcome A
  err : IoError → Outcome A
  panic : Outcome A

abbrev pub IsByte : ℕ → Type 0
IsByte b = b < 256

abbrev pub IsU16 : ℕ → Type 0
IsU16 v = v < 2 ^ 16

abbrev pub IsU32 : ℕ → Type 0
IsU32 v = v < 2 ^ 32

-- `u16::to_be_bytes` and `u32::to_be_bytes`.
unfoldable pub u16_to_be_bytes : ℕ → List ℕ
u16_to_be_bytes v = (v / 256 % 256) ∷ (v % 256) ∷ []

unfoldable pub u32_to_be_bytes : ℕ → List ℕ
u32_to_be_bytes v = (v / 2 ^ 24 % 256) ∷ (v / 2 ^ 16 % 256) ∷ (v / 256 % 256) ∷ (v % 256) ∷ []

-- The library's stream: `bytes s` are the bytes that arrive on `s` before its end. A read takes
-- them from the front in network order; the words fail with `UnexpectedEof` where too few are left.
-- `read_exact n` fills a buffer of `n` bytes that the code allocates; it succeeds where they arrive,
-- and nothing is said of it otherwise, such as for lengths that cannot be allocated.
pub record AsyncRead : Type 1 where
  pub Stream : Type 0
  pub bytes : Stream → List ℕ
  pub read_u16 : Stream → Outcome (ℕ × Stream)
  pub read_u32 : Stream → Outcome (ℕ × Stream)
  pub read_exact : ℕ → Stream → Outcome (List ℕ × Stream)
  pub read_u16_ok :
      (s : Stream) (v : ℕ) (rest : List ℕ)
      → IsU16 v
      → bytes s ≡ u16_to_be_bytes v ++ rest
      → (t : Stream) × (read_u16 s ≡ ok (v, t)) × (bytes t ≡ rest)
  pub read_u32_ok :
      (s : Stream) (v : ℕ) (rest : List ℕ)
      → IsU32 v
      → bytes s ≡ u32_to_be_bytes v ++ rest
      → (t : Stream) × (read_u32 s ≡ ok (v, t)) × (bytes t ≡ rest)
  pub read_exact_ok :
      (s : Stream) (xs rest : List ℕ)
      → bytes s ≡ xs ++ rest
      → (t : Stream) × (read_exact (length xs) s ≡ ok (xs, t)) × (bytes t ≡ rest)
  pub read_u16_eof : (s : Stream) → length (bytes s) < 2 → read_u16 s ≡ err unexpected_eof
  pub read_u32_eof : (s : Stream) → length (bytes s) < 4 → read_u32 s ≡ err unexpected_eof

abbrev pub M : Type 0 → Type 0 → Type 0
M S A = S → Outcome (A × S)

module _ {S : Type 0} where
  infixl 5 ◌>>=◌ ◌>>◌
  abbrev pub ◌>>=◌ : {A B : Type 0} → M S A → (A → M S B) → M S B
  ◌>>=◌ m f s = elim (m s) [ ok (a, t) ↦ f a t | err e ↦ err e | panic ↦ panic ]

  abbrev pub ◌>>◌ : {A B : Type 0} → M S A → M S B → M S B
  m >> k = m >>= λ _. k

  abbrev pub return : {A : Type 0} → A → M S A
  return a s = ok (a, s)

  abbrev pub fail : {A : Type 0} → IoError → M S A
  fail e s = err e

  -- `debug_assert!`: checked in a debug build only.
  unfoldable pub debug_assert : Bool → Bool → M S (Unit {0})
  debug_assert debug b s = if debug then (if b then ok (tt, s) else panic) else ok (tt, s)

  pub debug_assert-true : (debug : Bool) (s : S) → debug_assert debug true s ≡ ok (tt, s)
  unfolding debug_assert
  debug_assert-true debug s = ground arith

-- `m` reads exactly the bytes `i`, whatever follows them, and returns `a`.
module _ (io : AsyncRead) where
  open io use {Stream, bytes}

  abbrev pub Reads : {A : Type 0} → M Stream A → List ℕ → A → Type 0
  Reads m i a =
      (s : Stream) (rest : List ℕ)
      → bytes s ≡ i ++ rest
      → (t : Stream) × (m s ≡ ok (a, t)) × (bytes t ≡ rest)

  pub Reads-return : {A : Type 0} (a : A) → Reads (return a) [] a
  Reads-return a s rest h = (s, refl, h)

  pub Reads-bind :
      {A B : Type 0} (m : M Stream A) (f : A → M Stream B) (i j : List ℕ) (a : A) (b : B)
      → Reads m i a
      → Reads (f a) j b
      → Reads (m >>= f) (i ++ j) b
  Reads-bind m f i j a b rm rf s rest h =
      let first = rm s (j ++ rest) (h ∙ append_assoc i j rest) in
      let second = rf first.0 rest first.2 in
      (second.0, ground (arith, first.1, second.1), second.2)

  -- A last step, with nothing after it.
  pub Reads-last :
      {A B : Type 0} (m : M Stream A) (f : A → B) (i : List ℕ) (a : A)
      → Reads m i a
      → Reads (m >>= λ x. return (f x)) i (f a)
  Reads-last m f i a rm s rest h =
      let first = rm s rest h in (first.0, ground (arith, first.1), first.2)

  pub Reads-u16 : (v : ℕ) → IsU16 v → Reads io.read_u16 (u16_to_be_bytes v) v
  Reads-u16 v h s rest e = io.read_u16_ok s v rest h e

  pub Reads-u32 : (v : ℕ) → IsU32 v → Reads io.read_u32 (u32_to_be_bytes v) v
  Reads-u32 v h s rest e = io.read_u32_ok s v rest h e

  pub Reads-exact : (n : ℕ) (xs : List ℕ) → length xs ≡ n → Reads (io.read_exact n) xs xs
  Reads-exact n xs h s rest e = rw (← h) (io.read_exact_ok s xs rest e)

  pub Reads-assert : (debug : Bool) (b : Bool) → b ≡ true → Reads (debug_assert debug b) [] tt
  Reads-assert debug b h s rest e = rw h (s, debug_assert-true debug s, e)
