-- ===== src/Connection/Keys.antt =====
-- Equal numbers in the tables of `handler` of src/usbip_server/mod.rs.
use lusbip.Base.{ℕ, ◌<◌, ◌≡◌, Bool, true, List, some, ◌==◌, contains, lookup, arith}
use lusbip.Protocol.Stream.{ok}
use lusbip.Bulk.Pending.{count}
use lusbip.Bulk.InTrace.{is_some}

pub ok_inj : {A : Type 0} {a b : A} → ok a ≡ ok b → a ≡ b
ok_inj h = cc h

pub at_key : (q k : ℕ) (ks : List ℕ) → (q == k) ≡ true → count q ks ≡ 0 → count k ks ≡ 0
at_key q k ks e h = ground (arith, e, h)

pub key_of : (q j k : ℕ) (b : Bool) → q ≡ j → (j == k) ≡ b → (q == k) ≡ b
key_of q j k b e h = ground (arith, e, h)

pub some_at :
    (j k : ℕ) (m : List (ℕ × ℕ)) (a : ℕ)
    → (j == k) ≡ true
    → lookup j m ≡ some a
    → is_some (lookup k m) ≡ true
some_at j k m a e h = ground (arith, e, h)

pub contains_key :
    (j k : ℕ) (ks : List ℕ) (b : Bool) → (j == k) ≡ true → contains j ks ≡ b → contains k ks ≡ b
contains_key j k ks b e h = ground (arith, e, h)

pub less_at :
    (j k : ℕ) (ks ms : List ℕ) → (j == k) ≡ true → count j ks < count j ms → count k ks < count k ms
less_at j k ks ms e h = ground (arith, e, h)
