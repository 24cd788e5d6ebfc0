-- ===== src/Session/Steps/Orderly.antt =====
-- Whatever the order of events, a session of odoo_sheller/session.py has at most one command in the
-- hands of its process, and none while it is ready.
use odoo_sheller.Common.{◌+◌, ◌≤◌, ◌≡◌, refl, false, none, arith}
use odoo_sheller.Session.Records.{ready}
use odoo_sheller.Session.Machine.{Session}
use odoo_sheller.Session.Core.{load, core}
use odoo_sheller.Session.Steps.{
  Step, call_exec, call_run_test, call_boundary, call_close, call_kill, change_rights, read_hello,
  read_result, read_bye, read_overrun, reader_drained, process_ended, say_started, reach_ceiling,
  go_on, go_on_failed, go_on_expired, go_on_signalled, end_exec, end_run_test, ask_to_leave,
  end_close, end_kill, Reach, opened, next,
}
use odoo_sheller.Session.Steps.Invariant.{count, IsOrderly}
use odoo_sheller.Session.Steps.Calls.{
  execute-IsOrderly, run_test_start-IsOrderly, boundary_start-IsOrderly, close_request-IsOrderly,
}
use odoo_sheller.Session.Steps.Process.{
  on_result-IsOrderly, on_bye-IsOrderly, on_hello-IsOrderly, overrun-IsOrderly, drained-IsOrderly,
  started-IsOrderly, die-IsOrderly, kill_start-IsOrderly, close_start-IsOrderly,
}
use odoo_sheller.Session.Steps.Tasks.{
  kill_finish-IsOrderly, close_finish-IsOrderly, resume-IsOrderly, resume_failed-IsOrderly,
  abandon-IsOrderly, time_out-IsOrderly, finish_exec-IsOrderly, finish_run-IsOrderly,
  ceiling-IsOrderly,
}

Step-IsOrderly : {s t : Session} → Step s t → IsOrderly (core s) → IsOrderly (core t)
Step-IsOrderly {s} {t} (call_exec text ro e) h = execute-IsOrderly text ro s t h e
Step-IsOrderly {s} {t} (call_run_test m c f p e) h = run_test_start-IsOrderly m c f p s t h e
Step-IsOrderly {s} {t} (call_boundary b e) h = boundary_start-IsOrderly b s t h e
Step-IsOrderly {s} call_close h = close_start-IsOrderly s h
Step-IsOrderly {s} call_kill h = kill_start-IsOrderly s h
Step-IsOrderly (change_rights r e) h = unfold core in h
Step-IsOrderly {s} (read_hello g e) h = on_hello-IsOrderly g s h
Step-IsOrderly {s} (read_result r e f) h = on_result-IsOrderly r s h e
Step-IsOrderly {s} (read_bye r e) h = on_bye-IsOrderly r s h
Step-IsOrderly {s} (read_overrun e) h = overrun-IsOrderly s h
Step-IsOrderly {s} reader_drained h = drained-IsOrderly s h
Step-IsOrderly {s} (process_ended reason) h = die-IsOrderly reason s h
Step-IsOrderly {s} (say_started g e f) h = started-IsOrderly g s h f
Step-IsOrderly {s} (reach_ceiling n p e f) h = ceiling-IsOrderly n p s h e f
Step-IsOrderly {s} (go_on u r e f) h = resume-IsOrderly u s h e r f
Step-IsOrderly {s} (go_on_failed u e f) h = resume_failed-IsOrderly u s h e f
Step-IsOrderly {s} (go_on_expired u e f) h = abandon-IsOrderly u s h e f
Step-IsOrderly {s} (go_on_signalled u e f) h = time_out-IsOrderly u s h e f
Step-IsOrderly {s} (end_exec u r e f) h = finish_exec-IsOrderly u s h e r f
Step-IsOrderly {s} (end_run_test u r e f) h = finish_run-IsOrderly u s h e r f
Step-IsOrderly {s} (ask_to_leave e) h = close_request-IsOrderly s h e
Step-IsOrderly {s} (end_close e) h = close_finish-IsOrderly s h
Step-IsOrderly {s} (end_kill d e) h = kill_finish-IsOrderly d s h

Reach-IsOrderly : {s : Session} → Reach s → IsOrderly (core s)
Reach-IsOrderly (opened r a) =
    unfold core in
    record {
      idle = λ _ _. (refl, refl);
      single = λ _. omega arith;
      early = λ _. (refl, refl);
      named = λ r. ground arith;
    }
Reach-IsOrderly (next p st) = Step-IsOrderly st (Reach-IsOrderly p)

-- However calls, answers, ceilings, handovers and the end of the process interleave: a session that
-- says it is ready has no command whose caller still counts on it and no abandoned one, and a
-- session that is not closing never has more than one of the two together.
pub ready_is_idle :
    {s : Session}
    → Reach s
    → (s.state ≡ ready → (load s.tasks ≡ 0) × (s.abandoned_id ≡ none))
      × (s.closing ≡ false → load s.tasks + count s.abandoned_id ≤ 1)
unfolding core
ready_is_idle p = let h = Reach-IsOrderly p in (λ e. ground (arith, h.idle), λ e. h.single e)
