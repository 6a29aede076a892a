-- ===== src/BatchFlow/Entry.antt =====
-- What Submit of batchflow.go lets in.
use batchflow.Prelude.{
  String, ◌≡◌, refl, sym, subst, Bool, true, false, [], ◌∷◌, ◌++◌, Option, none, some, arith,
  Bool-cases, Option-cases, inl, inr, is_empty, if◌then◌else◌,
}
use batchflow.Schema.{SchemaInterface, name, columns}
use batchflow.Context.{ContextErr, canceled}
use batchflow.Errors.{Error, err_invalid_schema, err_missing_column, err_empty_schema_name}
use batchflow.BatchFlow.{
  BatchFlow, Report, Submitted, Selected, reject, report_submit_rejected, enqueue, submit_to,
  submit_open, submit, is_empty_text,
}

-- What a rejection leaves: if the reporter takes rejections, one report more, with the reason, and
-- else the flow as it was.
pub data IsRejected (reason : String) (b b' : BatchFlow) : Type 0 where
  reported :
      b.reports_rejections ≡ true
      → b'.queue ≡ b.queue
      → b'.closed ≡ b.closed
      → b'.reports ≡ Report.submit_rejected reason ∷ b.reports
      → IsRejected reason b b'
  silent : b.reports_rejections ≡ false → b' ≡ b → IsRejected reason b b'

-- How a call of Submit ends: with nil, the request last in the queue of an open flow; or with an error
-- and a rejection.
pub data Ending (b : BatchFlow) : Option Submitted → Option Error × BatchFlow → Type 0 where
  accepted :
      (r : Submitted) (b' : BatchFlow)
      → b.closed ≡ false
      → b'.queue ≡ b.queue ++ r.request ∷ []
      → Ending b (some r) (none, b')
  rejected :
      (r : Option Submitted) (e : Error) (reason : String) (b' : BatchFlow)
      → IsRejected reason b b'
      → Ending b r (some e, b')

module _ (b : BatchFlow) where
  report_submit_rejected-IsRejected :
      (reason : String) → IsRejected reason b (report_submit_rejected reason b)
  unfolding report_submit_rejected
  report_submit_rejected-IsRejected reason = elim (Bool-cases b.reports_rejections) [
    | inl on ↦ IsRejected.reported on (ground arith) (ground arith) (ground arith)
    | inr off ↦ IsRejected.silent off (rw off refl)
  ]

  reject-Ending :
      (r : Option Submitted) (reason : String) (e : Error) → Ending b r (reject reason e b)
  unfolding reject
  reject-Ending r reason e = Ending.rejected r e reason _ (report_submit_rejected-IsRejected reason)

  enqueue-Ending :
      (selected : Selected) (r : Submitted)
      → b.closed ≡ false
      → Ending b (some r) (enqueue selected r.request b)
  unfolding enqueue
  enqueue-Ending (Selected.sent latency) r opened = Ending.accepted r _ opened refl
  enqueue-Ending (Selected.done c) r opened = reject-Ending (some r) _ _

  Ending-same :
      (r : Option Submitted) {x y : Option Error × BatchFlow} → x ≡ y → Ending b r y → Ending b r x
  Ending-same r same h = subst (Ending b r) (sym same) h

  Ending-if :
      (r : Option Submitted) (t : Bool) {x y : Option Error × BatchFlow}
      → Ending b r x
      → Ending b r y
      → Ending b r (if t then x else y)
  Ending-if r true p q = p
  Ending-if r false p q = q

  submit_to-Ending :
      (selected : Selected) (schema : SchemaInterface) (r : Submitted)
      → b.closed ≡ false
      → Ending b (some r) (submit_to selected schema r.request b)
  unfolding submit_to
  submit_to-Ending selected schema r opened =
      Ending-if (some r) (is_empty (columns schema))
        (reject-Ending (some r) "missing_column" err_missing_column)
        (Ending-if (some r) (is_empty_text (name schema))
          (reject-Ending (some r) "empty_schema_name" err_empty_schema_name)
          (enqueue-Ending selected r opened))

  submit_open-Ending :
      (selected : Selected) (r : Option Submitted)
      → b.closed ≡ false
      → Ending b r (submit_open selected r b)
  unfolding submit_open
  submit_open-Ending selected none opened = reject-Ending none _ _
  submit_open-Ending selected (some r) opened = elim (Option-cases r.schema) [
    | inl missing ↦
        let same : submit_open selected (some r) b ≡ reject "invalid_schema" err_invalid_schema b =
          ground arith in
        Ending-same (some r) same (reject-Ending (some r) "invalid_schema" err_invalid_schema)
    | inr (schema, given) ↦
        let same : submit_open selected (some r) b ≡ submit_to selected schema r.request b =
          ground arith in
        Ending-same (some r) same (submit_to-Ending selected schema r opened)
  ]

  -- Every call of Submit, under any context and however its select ends, either returns nil, finds
  -- the flow open and puts the request last in the queue, or returns an error, leaves the queue as
  -- it is and reports one rejection more if the reporter takes rejections, and none if not.
  pub submit-Ending :
      (ctx_err : Option ContextErr) (selected : Selected) (r : Option Submitted)
      → Ending b r (submit ctx_err selected r b)
  unfolding submit
  submit-Ending (some c) selected r = reject-Ending r _ _
  submit-Ending none selected r = elim (Bool-cases b.closed) [
    | inl shut ↦
        let same : submit none selected r b ≡ reject "batchflow_closed" (Error.context canceled) b =
          ground arith in
        Ending-same r same (reject-Ending r "batchflow_closed" (Error.context canceled))
    | inr opened ↦
        let same : submit none selected r b ≡ submit_open selected r b = ground arith in
        Ending-same r same (submit_open-Ending selected r opened)
  ]
