-- ===== src/Connection/Tables.antt =====
-- The tables of `handler` in src/usbip_server/mod.rs seen from one sequence number: how often its
-- request came, is under way, was unlinked and was answered.
use lusbip.Base.{
  ℕ, ◌+◌, ◌≡◌, ◌≤◌, ◌<◌, Bool, true, false, List, [], ◌∷◌, ◌==◌, if◌then◌else◌, arith,
}
use lusbip.Bulk.Pending.{count}
use lusbip.Protocol.Reply.{RetSubmit}
use lusbip.Connection.Defs.{Reply, ret_submit, ret_unlink}

-- How many RET_SUBMIT for `k` were written.
unfoldable pub answers : ℕ → List Reply → ℕ
answers k [] = 0
answers k (ret_submit r ∷ rs) = (if r.header.seqnum == k then 1 else 0) + answers k rs
answers k (ret_unlink r ∷ rs) = answers k rs

pub count-same : (s k : ℕ) (ss : List ℕ) → (s == k) ≡ true → count k (s ∷ ss) ≡ 1 + count k ss
unfolding count
count-same s k ss e = ground (arith, e)

pub count-other : (s k : ℕ) (ss : List ℕ) → (s == k) ≡ false → count k (s ∷ ss) ≡ count k ss
unfolding count
count-other s k ss e = ground (arith, e)

pub answers-same :
    (k : ℕ) (r : RetSubmit) (rs : List Reply)
    → (r.header.seqnum == k) ≡ true
    → answers k (ret_submit r ∷ rs) ≡ 1 + answers k rs
unfolding answers
answers-same k r rs e = ground (arith, e)

pub answers-other :
    (k : ℕ) (r : RetSubmit) (rs : List Reply)
    → (r.header.seqnum == k) ≡ false
    → answers k (ret_submit r ∷ rs) ≡ answers k rs
unfolding answers
answers-other k r rs e = ground (arith, e)

abbrev pub one_if : Bool → ℕ
one_if b = if b then 1 else 0

-- The view of `k`: its requests came `sub` times, `via` of them to a worker to the host. One is with
-- such a worker if `ins`, with one from the host if `pend`; `canc` says that its answer is to be
-- dropped. Workers to the host answered it `con` times, it was unlinked `un` times with success
-- and answered to the client `wr` times.
pub record Balanced (ins pend canc : Bool) (sub via con un wr : ℕ) : Type 0 where
  pub once : sub ≤ 1
  pub within : via ≤ sub
  pub total : one_if ins + one_if pend + un + wr ≡ sub
  pub by_in : via ≡ 1 → (pend ≡ false) × (one_if canc + con ≡ un + wr)
  pub not_in : via ≡ 0 → (canc ≡ false) × (con ≡ 0) × (ins ≡ false)

module _ {ins pend canc : Bool} {sub via con un wr : ℕ}
    (v : Balanced ins pend canc sub via con un wr) where
  -- A request that comes for the first time, to a worker of either kind or answered at once.
  pub first_to_in : sub ≡ 0 → Balanced true pend canc (1 + sub) (1 + via) con un wr
  first_to_in h = ground (arith, v.once, v.within, v.total, v.not_in)

  pub first_to_out : sub ≡ 0 → Balanced ins true canc (1 + sub) via con un wr
  first_to_out h = ground (arith, v.once, v.within, v.total, v.not_in)

  pub first_at_once : sub ≡ 0 → Balanced ins pend canc (1 + sub) via con un (1 + wr)
  first_at_once h = ground (arith, v.once, v.within, v.total, v.not_in)

  -- An unlink that finds the request.
  pub unlinked_in : ins ≡ true → Balanced false pend true sub via con (1 + un) wr
  unlinked_in h = ground (arith, v.once, v.within, v.total, v.not_in, v.by_in)

  pub unlinked_out : pend ≡ true → Balanced ins false canc sub via con (1 + un) wr
  unlinked_out h = ground (arith, v.once, v.within, v.total, v.not_in, v.by_in)

  -- A worker to the host answers a request that it has not answered before: the answer is dropped,
  -- or written.
  pub event_dropped : canc ≡ true → con < via → Balanced false pend false sub via (1 + con) un wr
  event_dropped h l = ground (arith, v.once, v.within, v.total, v.not_in, v.by_in)

  pub event_written :
      canc ≡ false → con < via → Balanced false pend false sub via (1 + con) un (1 + wr)
  event_written h l = ground (arith, v.once, v.within, v.total, v.not_in, v.by_in)

  -- A worker from the host answers a request that is with it.
  pub out_written : pend ≡ true → Balanced ins false canc sub via con un (1 + wr)
  out_written h = ground (arith, v.once, v.within, v.total, v.not_in, v.by_in)
