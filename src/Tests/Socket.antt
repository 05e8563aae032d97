-- ===== src/Tests/Socket.antt =====
-- A stream that is the list of its bytes, for runs of the parser of
-- src/usbip_server/usbip_protocol.rs.
use lusbip.Base.{
  ℕ, ◌+◌, ◌*◌, ◌/◌, ◌%◌, ◌^◌, ◌<◌, ◌≡◌, refl, ap, ◌∙◌, false, List, [], ◌∷◌, ◌++◌, ltb,
  if◌then◌else◌, length, take, drop, length-append, arith,
}
use lusbip.Protocol.Stream.{
  Outcome, ok, err, unexpected_eof, IsU16, IsU32, u16_to_be_bytes, u32_to_be_bytes, AsyncRead,
}

unfoldable pub socket_u16 : List ℕ → Outcome (ℕ × List ℕ)
socket_u16 (a ∷ b ∷ rest) = ok (a * 256 + b, rest)
socket_u16 (a ∷ []) = err unexpected_eof
socket_u16 [] = err unexpected_eof

unfoldable pub socket_u32 : List ℕ → Outcome (ℕ × List ℕ)
socket_u32 (a ∷ b ∷ c ∷ d ∷ rest) = ok (((a * 256 + b) * 256 + c) * 256 + d, rest)
socket_u32 (a ∷ b ∷ c ∷ []) = err unexpected_eof
socket_u32 (a ∷ b ∷ []) = err unexpected_eof
socket_u32 (a ∷ []) = err unexpected_eof
socket_u32 [] = err unexpected_eof

unfoldable pub socket_exact : ℕ → List ℕ → Outcome (List ℕ × List ℕ)
socket_exact n s = if ltb (length s) n then err unexpected_eof else ok (take n s, drop n s)

take-length : (xs ys : List ℕ) → take (length xs) (xs ++ ys) ≡ xs
take-length [] ys = refl
take-length (x ∷ xs) ys = ap (◌∷◌ x) (take-length xs ys)

drop-length : (xs ys : List ℕ) → drop (length xs) (xs ++ ys) ≡ ys
drop-length [] ys = refl
drop-length (x ∷ xs) ys = drop-length xs ys

pub socket_u16-ok :
    (v : ℕ) (rest : List ℕ) → IsU16 v → socket_u16 (u16_to_be_bytes v ++ rest) ≡ ok (v, rest)
unfolding socket_u16 u16_to_be_bytes
socket_u16-ok v rest h = let e : v / 256 % 256 * 256 + v % 256 ≡ v = omega arith in rw e refl

pub socket_u32-ok :
    (v : ℕ) (rest : List ℕ) → IsU32 v → socket_u32 (u32_to_be_bytes v ++ rest) ≡ ok (v, rest)
unfolding socket_u32 u32_to_be_bytes
socket_u32-ok v rest h =
    let e : ((v / 2 ^ 24 % 256 * 256 + v / 2 ^ 16 % 256) * 256 + v / 256 % 256) * 256 + v % 256
        ≡ v =
      omega arith in
    rw e refl

pub socket_exact-ok : (xs rest : List ℕ) → socket_exact (length xs) (xs ++ rest) ≡ ok (xs, rest)
unfolding socket_exact
socket_exact-ok xs rest =
    let e : ltb (length (xs ++ rest)) (length xs) ≡ false = ground (arith, length-append xs rest) in
    rw (e, take-length xs rest, drop-length xs rest) refl

pub socket_u16-eof : (s : List ℕ) → length s < 2 → socket_u16 s ≡ err unexpected_eof
unfolding socket_u16
socket_u16-eof [] h = refl
socket_u16-eof (a ∷ []) h = refl
socket_u16-eof (a ∷ b ∷ s) h = absurd (omega arith)

pub socket_u32-eof : (s : List ℕ) → length s < 4 → socket_u32 s ≡ err unexpected_eof
unfolding socket_u32
socket_u32-eof [] h = refl
socket_u32-eof (a ∷ []) h = refl
socket_u32-eof (a ∷ b ∷ []) h = refl
socket_u32-eof (a ∷ b ∷ c ∷ []) h = refl
socket_u32-eof (a ∷ b ∷ c ∷ d ∷ s) h = absurd (omega arith)

abbrev pub socket : AsyncRead
socket = record {
  Stream = List ℕ;
  bytes = λ s. s;
  read_u16 = socket_u16;
  read_u32 = socket_u32;
  read_exact = socket_exact;
  read_u16_ok = λ s v rest h e. (rest, ap socket_u16 e ∙ socket_u16-ok v rest h, refl);
  read_u32_ok = λ s v rest h e. (rest, ap socket_u32 e ∙ socket_u32-ok v rest h, refl);
  read_exact_ok =
      λ s xs rest e. (rest, ap (socket_exact (length xs)) e ∙ socket_exact-ok xs rest, refl);
  read_u16_eof = socket_u16-eof;
  read_u32_eof = socket_u32-eof;
}
