-- ===== src/Session/Steps/Invariant.antt =====
-- The invariant of the sessions of odoo_sheller/session.py, and how the moves of the view keep it.
use odoo_sheller.Common.{ℕ, ◌+◌, ◌-◌, ◌≤◌, ◌≡◌, true, false, Option, none, some, arith, is_some}
use odoo_sheller.Session.Records.{State, ready, busy, Reply}
use odoo_sheller.Session.Machine.{Phase, same_state, is_ended}
use odoo_sheller.Session.Core.{load_phase, Core, at_state, freed}
use odoo_sheller.Session.Core.Commands.{unload}

abbrev pub count : Option ℕ → ℕ
count none = 0
count (some n) = 1

-- At most one command is in the process's hands unless the session is closing, and none while the
-- session says that it is ready.
pub record IsOrderly (c : Core) : Type 0 where
  pub idle :
      same_state c.state busy ≡ false
      → is_ended c.state ≡ false
      → (c.load ≡ 0) × (c.abandoned ≡ none)
  pub single : c.closing ≡ false → c.load + count c.abandoned ≤ 1
  pub early :
      c.greeted ≡ false → (same_state c.state ready ≡ false) × (same_state c.state busy ≡ false)
  pub named : (r : Reply) → c.held ≡ some r → is_some r.id ≡ true

pub at_state-IsOrderly :
    (c : Core) (n : ℕ)
    → IsOrderly c
    → same_state c.state ready ≡ true
    → IsOrderly (at_state busy (record c { load = c.load + 1 }))
unfolding at_state
at_state-IsOrderly c n h e = record {
  idle = ground (arith, h.idle);
  single = ground (arith, h.idle);
  early = ground (arith, h.early);
  named = λ r. ground (arith, h.named r);
}

pub settled-IsOrderly :
    (c : Core)
    → IsOrderly c
    → is_some c.abandoned ≡ true
    → IsOrderly (freed (record c { abandoned = none }))
unfolding freed at_state
settled-IsOrderly c h e = record {
  idle = ground (arith, h.idle, h.single);
  single = ground (arith, h.single);
  early = ground (arith, h.early);
  named = λ r. ground (arith, h.named r);
}

pub unload-IsOrderly :
    (c : Core) (p : Phase)
    → IsOrderly c
    → load_phase p ≡ 1
    → 1 ≤ c.load
    → IsOrderly (unload p (freed c))
unfolding freed at_state
unload-IsOrderly c p h e l = record {
  idle = ground (arith, h.idle, h.single);
  single = ground (arith, h.single);
  early = ground (arith, h.early);
  named = λ r. ground (arith, h.named r);
}

pub abandoned-IsOrderly :
    (c : Core) (n : ℕ)
    → IsOrderly c
    → 1 ≤ c.load
    → IsOrderly (record c { load = c.load - 1; abandoned = some n })
abandoned-IsOrderly c n h l = record {
  idle = ground (arith, h.idle);
  single = ground (arith, h.single);
  early = h.early;
  named = h.named;
}

pub ended-IsOrderly :
    (c : Core) (st : State) → IsOrderly c → is_ended st ≡ true → IsOrderly (at_state st c)
unfolding at_state
ended-IsOrderly c st h e = record {
  idle = ground (arith, h.idle);
  single = ground (arith, h.single);
  early = ground (arith, h.early);
  named = λ r. ground (arith, h.named r);
}
