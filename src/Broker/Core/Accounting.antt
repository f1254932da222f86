-- ===== src/Broker/Core/Accounting.antt =====
-- The mailbox of a session and `pending_count`, app/broker/core.py: they agree in every interleaving.
use data_ops_studio_v.Base.{
  ℕ, ◌+◌, ◌≤◌, ◌<◌, ◌≡◌, refl, ◌∙◌, String, Bool, true, false, Option, List, [], ◌∷◌, ◌++◌, length,
  if◌then◌else◌, arith,
}
use data_ops_studio_v.Broker.Core.{SessionRuntime, LaneCommand, execute, close_lane}
use data_ops_studio_v.Broker.Core.Lane.{is_execute}
use data_ops_studio_v.Broker.Core.Steady.{IsSteady}

-- The commands of a mailbox that execute a statement.
unfoldable pub executes : List LaneCommand → ℕ
executes [] = 0
executes (execute id ∷ cs) = executes cs + 1
executes (close_lane reason ∷ cs) = executes cs

pub executes-le : (cs : List LaneCommand) → executes cs ≤ length cs
unfolding executes
executes-le [] = omega arith
executes-le (execute id ∷ cs) = omega (arith, executes-le cs)
executes-le (close_lane reason ∷ cs) = omega (arith, executes-le cs)

pub executes-snoc_execute :
    (cs : List LaneCommand) (id : String) → executes (cs ++ execute id ∷ []) ≡ executes cs + 1
unfolding executes
executes-snoc_execute [] id = refl
executes-snoc_execute (execute j ∷ cs) id = omega (arith, executes-snoc_execute cs id)
executes-snoc_execute (close_lane r ∷ cs) id = executes-snoc_execute cs id

pub executes-snoc_close :
    (cs : List LaneCommand) (reason : String)
    → executes (cs ++ close_lane reason ∷ []) ≡ executes cs
unfolding executes
executes-snoc_close [] reason = refl
executes-snoc_close (execute j ∷ cs) reason = omega (arith, executes-snoc_close cs reason)
executes-snoc_close (close_lane r ∷ cs) reason = executes-snoc_close cs reason

-- `pending_count` is the number of statements in the mailbox, and one more while the lane holds a
-- statement that it has not counted; it is at most the size of the mailbox, as is the length of the
-- mailbox; and a session that accepts statements has only statements in its mailbox.
pub record Accounts (size : ℕ) (mailbox : List LaneCommand) (pending_count : ℕ)
    (taken : Option LaneCommand) (accepting : Bool) : Type 0 where
  pub counted : pending_count ≡ executes mailbox + (if is_execute taken then 1 else 0)
  pub bounded : pending_count ≤ size
  pub fits : length mailbox ≤ size
  pub only_statements : accepting ≡ true → executes mailbox ≡ length mailbox

abbrev pub IsAccounted : ℕ → SessionRuntime → Type 0
IsAccounted size r = Accounts size r.mailbox r.pending_count r.taken r.accepting

-- There is room for a statement.
abbrev pub HasRoom : ℕ → SessionRuntime → Type 0
HasRoom size r =
    IsAccounted size r × (r.pending_count < size) × (executes r.mailbox ≡ length r.mailbox)

-- The session accepts nothing any more.
abbrev pub IsShut : ℕ → SessionRuntime → Type 0
IsShut size r = IsAccounted size r × (r.accepting ≡ false)

module _ (size : ℕ) where
  pub shut :
      (r : SessionRuntime) → IsAccounted size r → IsAccounted size (record r { accepting = false })
  shut r h = record {
    counted = h.counted;
    bounded = h.bounded;
    fits = h.fits;
    only_statements = λ e. absurd (let no : false ≡ true = e in cc);
  }

  pub same_account :
      (r r' : SessionRuntime)
      → r'.mailbox ≡ r.mailbox
      → r'.pending_count ≡ r.pending_count
      → r'.taken ≡ r.taken
      → r'.accepting ≡ r.accepting
      → IsAccounted size r
      → IsAccounted size r'
  same_account r r' a b c d h = rw (a, b, c, d) h

  pub IsSteady-IsAccounted : IsSteady (IsAccounted size)
  IsSteady-IsAccounted = record {
    steady = λ r r' a b c d e h. same_account r r' a b c d h;
    stops = shut;
  }

  pub IsSteady-HasRoom : IsSteady (HasRoom size)
  IsSteady-HasRoom = record {
    steady = λ r r' a b c d e h. (same_account r r' a b c d h.0, rw b h.1, rw a h.2);
    stops = λ r h. (shut r h.0, h.1, h.2);
  }

  pub IsSteady-IsShut : IsSteady (IsShut size)
  IsSteady-IsShut = record {
    steady = λ r r' a b c d e h. (same_account r r' a b c d h.0, d ∙ h.1);
    stops = λ r h. (shut r h.0, refl);
  }
