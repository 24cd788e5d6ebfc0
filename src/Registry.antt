-- ===== src/Registry.antt =====
-- odoo_sheller/registry.py: the sessions by id, the sweep of a container switch over them, and the
-- queues of the sockets that watch.
pub mod Ids
pub mod Closing
pub mod Opening
pub mod Starting
pub mod Sweep
pub mod Queues
use odoo_sheller.Common.{
  ℕ, String, ◌⊎◌, inl, inr, Bool, true, false, not, ◌&&◌, Option, none, some, List, [], ◌∷◌, ◌++◌,
  map, ltb, if◌then◌else◌, ◌==◌, string_eq, nat_eq, length, lookup,
}
use odoo_sheller.AgentCommit.{SwitchFile, SwitchError, is_on, turn_on, turn_off}
use odoo_sheller.Session.Records.{session, result}
use odoo_sheller.Session.Rights.{apply_container_switch}
use odoo_sheller.Session.Machine.{Session, is_ended}
use odoo_sheller.Transport.{is_docker}

-- A session as the registry holds it, with the name that its switch is keyed by.
pub record Registered : Type 0 where
  pub id : String
  pub container_name : Option String
  pub session : Session

pub record Registry : Type 0 where
  pub sessions : List Registered
  pub agent_commit : SwitchFile

-- `_switched_on`: a file that cannot be read counts as off.
unfoldable pub switched_on : Option String → SwitchFile → Bool
switched_on name f = elim (is_on name f) [ inl p ↦ false | inr b ↦ b ]

abbrev pub is_named : String → Option String → Bool
is_named c none = false
is_named c (some n) = n == c

-- The sessions that `set_agent_commit` looks at.
abbrev pub is_swept : String → Registered → Bool
is_swept c r =
    is_docker r.session.target.kind && is_named c r.container_name && not (is_ended r.session.state)

unfoldable pub sweep_one : String → Bool → SwitchFile → Registered → Registered × Bool
sweep_one c on f r =
    let (rights, changed) =
      apply_container_switch on (switched_on r.container_name f) r.session.rights in
    if is_swept c r
    then (record r { session = record r.session { rights = rights } }, changed)
    else (r, false)

abbrev changed_ids : List (Registered × Bool) → List String
changed_ids [] = []
changed_ids ((r, b) ∷ rest) = let ids = changed_ids rest in if b then r.id ∷ ids else ids

abbrev as_it_was : Registered → Registered × Bool
as_it_was r = (r, false)

-- What `apply_container_switch` leaves where the journal does not take its line: the right has changed,
-- and nothing is written or emitted.
abbrev cut_short : Registered → Registered → Registered
cut_short before after =
    let old = before.session.rights in
    let rights = record after.session.rights { journal = old.journal; events = old.events } in
    record after { session = record after.session { rights = rights } }

-- The loop of `set_agent_commit`: whether it was broken off, and the sessions with whether their
-- right changed. It is broken off where a right has changed and the session's journal, by
-- `can_log`, does not take the line that says so; the sessions behind are not looked at.
unfoldable pub swept :
    String → Bool → SwitchFile → (String → Bool) → List Registered → Bool × List (Registered × Bool)
swept c on f can_log [] = (false, [])
swept c on f can_log (r ∷ rs) =
    let one = sweep_one c on f r in
    let later = swept c on f can_log rs in
    if one.1 && not (can_log r.id)
    then (true, (cut_short r one.0, true) ∷ map as_it_was rs)
    else (later.0, one ∷ later.1)

abbrev pub firsts : List (Registered × Bool) → List Registered
firsts [] = []
firsts ((r, b) ∷ rest) = r ∷ firsts rest

-- What `set_agent_commit` raises: what the file's store does, or what a journal does.
pub data SweepError : Type 0 where
  of_switch : SwitchError → SweepError
  unlogged : SweepError

-- `set_agent_commit`: the ids whose right changed, or what was raised; and the registry in either
-- case. On is written before the sweep, off after it. `can_write` says whether the file can be
-- written.
unfoldable pub set_agent_commit :
    (can_write : Bool)
    → (can_log : String → Bool) → String
    → Bool
    → String
    → Registry
    → (SweepError ⊎ List String) × Registry
unfolding swept
set_agent_commit can_write can_log c true now r = elim (turn_on can_write c now r.agent_commit) [
  | inl p ↦ (inl (of_switch p), r)
  | inr (e, f) ↦
      let after = swept c true f can_log r.sessions in
      let result : SweepError ⊎ List String =
        if after.0 then inl unlogged else inr (changed_ids after.1) in
      (result, record { sessions = firsts after.1; agent_commit = f })
]
set_agent_commit can_write can_log c false now r =
    let after = swept c false r.agent_commit can_log r.sessions in
    if after.0
    then (inl unlogged, record r { sessions = firsts after.1 })
    else elim (turn_off can_write c r.agent_commit) [
      | inl p ↦ (inl (of_switch p), record r { sessions = firsts after.1 })
      | inr (was, f) ↦
          (inr (changed_ids after.1), record { sessions = firsts after.1; agent_commit = f })
    ]

-- What a queue holds: an event, or `None`, the last thing its reader hears.
pub data Signal (E : Type 0) : Type 0 where
  event : E → Signal E
  hung_up : Signal E

-- The queues by number, those that watch the registry, and those that watch one session.
pub record Board (E : Type 0) : Type 0 where
  pub queues : ℕ → List (Signal E)
  pub watchers : List ℕ
  pub subscribers : List (String × List ℕ)

-- `list.remove`
abbrev pub remove_first : ℕ → List ℕ → List ℕ
remove_first q [] = []
remove_first q (x ∷ xs) = if x == q then xs else x ∷ remove_first q xs

abbrev drop_from : String → ℕ → List (String × List ℕ) → List (String × List ℕ)
drop_from id q [] = []
drop_from id q ((k, qs) ∷ rest) =
    if k == id then (k, remove_first q qs) ∷ rest else (k, qs) ∷ drop_from id q rest

abbrev pub queues_of : String → List (String × List ℕ) → List ℕ
queues_of id subs = elim (lookup id subs) [ none ↦ [] | some qs ↦ qs ]

module _ {E : Type 0} where
  abbrev pub set_queue : ℕ → List (Signal E) → Board E → Board E
  set_queue q items b = record b { queues = λ x. if x == q then items else b.queues x }

  -- `_hang_up`
  unfoldable pub hang_up : ℕ → Board E → Board E
  hang_up q b = set_queue q (hung_up ∷ []) b

  -- `watch` and `unwatch`
  unfoldable pub watch : ℕ → Board E → Board E
  watch q b = record b { watchers = b.watchers ++ q ∷ [] }

  unfoldable pub unwatch : ℕ → Board E → Board E
  unwatch q b = record b { watchers = remove_first q b.watchers }

  -- `unsubscribe`
  unfoldable pub unsubscribe : String → ℕ → Board E → Board E
  unsubscribe id q b = record b { subscribers = drop_from id q b.subscribers }

  -- The loop of `_broadcast` and `_publish`: `put_nowait` on each queue, which raises at `limit`
  -- items; a full queue is let go and hung up on.
  unfoldable pub deliver_all : (ℕ → Board E → Board E) → ℕ → E → List ℕ → Board E → Board E
  deliver_all let_go limit e [] b = b
  deliver_all let_go limit e (q ∷ qs) b = deliver_all let_go limit e qs (
      if ltb (length (b.queues q)) limit
      then set_queue q (b.queues q ++ event e ∷ []) b
      else hang_up q (let_go q b))

  -- `_broadcast`
  unfoldable pub broadcast : ℕ → E → Board E → Board E
  broadcast limit e b = deliver_all unwatch limit e b.watchers b

  -- `_publish`, for an event that is not `autoclose`; `announced` are those that watchers hear too
  unfoldable pub publish : ℕ → String → E → Bool → Board E → Board E
  publish limit id e announced b =
      let c = deliver_all (unsubscribe id) limit e (queues_of id b.subscribers) b in
      if announced then broadcast limit e c else c
