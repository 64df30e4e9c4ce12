-- ===== src/Business/Executor/Answers.antt =====
-- business/executor.py: what the answer of a call tells of the tables.
use bfsi_voice_agent.Prelude.{
  ◌+◌, String, ◌≡◌, ◌⊎◌, inl, inr, refl, ap, ◌∙◌, true, false, some, [], ◌∷◌, Text, arith,
}
use bfsi_voice_agent.Business.Repository.{BusinessDatabase}
use bfsi_voice_agent.Business.Repository.Writes.{Write, run}
use bfsi_voice_agent.Business.Repository.Totals.{rows}
use bfsi_voice_agent.Business.Schemas.{ToolExecutionResult}
use bfsi_voice_agent.Integration.RouterSchema.{ToolName}
use bfsi_voice_agent.Business.Executor.{tool_name, settled, execute}
use bfsi_voice_agent.Business.Executor.Handlers.{
  Context, Attempt, returns, raises, writes_event, Arguments,
}
use bfsi_voice_agent.Business.Executor.Effects.{OwnRow, OwnEvent, is_own, class_raised, succeeded}
use bfsi_voice_agent.Business.Executor.Gate.{execute-tool_name}
use bfsi_voice_agent.Business.Executor.Calls.{records, Keeps, execute_tool-Attempted, settled_after}

settled-succeeded : (name : String) (a : Attempt) → (settled name a).0.success ≡ succeeded a
settled-succeeded name (raises e, db) = refl
settled-succeeded name (returns r, db) = refl

is_own-records : (t : ToolName) (w : Write) → is_own t w ≡ true → records t ≡ true
is_own-records t w h = ground (arith, h)

-- A tool's own row and its call event were written, and nothing else.
abbrev pub BothWritten : String → Text → ToolName → BusinessDatabase → BusinessDatabase → Type 0
BothWritten customer user_text t db after =
    (w : Write) × (e : Write) × OwnRow customer user_text db t w
    × OwnEvent customer t e
    × (after ≡ run (w ∷ e ∷ []) db)
    × (rows after ≡ rows db + 2)

-- A tool's own row was written, and nothing else.
abbrev pub RowWritten : String → Text → ToolName → BusinessDatabase → BusinessDatabase → Type 0
RowWritten customer user_text t db after =
    (w : Write) × OwnRow customer user_text db t w
    × (after ≡ run (w ∷ []) db)
    × (rows after ≡ rows db + 1)

-- What an answer tells: a success of a tool that records something means its row and its event; no
-- success means nothing written, or the row alone and the class of the event's exception; and a tool
-- that records nothing writes nothing.
abbrev pub Told :
    Context
    → String
    → Text
    → ToolName
    → BusinessDatabase
    → ToolExecutionResult × BusinessDatabase
    → Type 0
Told ctx customer user_text t db o =
    (o.0.success ≡ true → records t ≡ true → BothWritten customer user_text t db o.1)
    × (o.0.success ≡ false
        → (o.1 ≡ db)
          ⊎ (RowWritten customer user_text t db o.1
              × (o.0.error_code ≡ some (class_raised (ctx.storage_error writes_event)))))
    × (records t ≡ false → o.1 ≡ db)

Lawful-Told :
    (ctx : Context) (customer : String) (user_text : Text) (t : ToolName) (db : BusinessDatabase)
    (a : Attempt)
    → Keeps ctx user_text customer db t (records t) a
    → Told ctx customer user_text t db (settled (tool_name t) a)
Lawful-Told ctx customer user_text t db a (inl (same, fails)) = (
  λ good recording.
      absurd (ground (arith, good, fails recording, settled-succeeded (tool_name t) a)),
  λ bad. inl (settled_after (tool_name t) a ∙ same),
  λ idle. settled_after (tool_name t) a ∙ same,
)
Lawful-Told ctx customer user_text t db a (inr (inl (w, pw, same, grown))) =
    let raised = ap (settled (tool_name t)) same in
    let kept = settled_after (tool_name t) a in
    (
      λ good recording. absurd (ground (arith, good, ap (λ o. o.0.success) raised)),
      λ bad.
          inr
            ((w, pw, ap (λ o. o.1) raised, ap rows kept ∙ grown), ap (λ o. o.0.error_code) raised),
      λ idle. absurd (ground (arith, idle, is_own-records t w pw.0)),
    )
Lawful-Told ctx customer user_text t db a (inr (inr (w, e, pw, pe, same, good, grown))) =
    let kept = settled_after (tool_name t) a in
    (
      λ _ _. (w, e, pw, pe, kept ∙ same, ap rows kept ∙ grown),
      λ bad. absurd (ground (arith, good, bad, settled-succeeded (tool_name t) a)),
      λ idle. absurd (ground (arith, idle, is_own-records t w pw.0)),
    )

-- The answer of a call tells what was written. Where a tool that records something answers with a
-- success, the tables are the ones before with exactly two rows more: the row that this tool is for,
-- on the customer of the session or an account of this customer, and the customer's call event of
-- the tool's type. Where any tool answers with no success, the tables are as they were, or the tool's
-- own row alone was added, and the error code is the class of the exception that its call event
-- raised after the row was committed: the storage's, or IntegrityError if the storage raised none and
-- the constraints refused the event. A tool that records nothing leaves the tables as they were.
pub execute-Told :
    (ctx : Context) (t : ToolName) (arguments : Arguments) (user_text : Text) (customer : String)
    (db : BusinessDatabase)
    → Told ctx customer user_text t db (execute ctx (tool_name t) arguments user_text customer db)
execute-Told ctx t arguments user_text customer db =
    let (a, same, lawful) = execute_tool-Attempted ctx user_text customer db t arguments in
    rw (execute-tool_name ctx t arguments user_text customer db, same)
      (Lawful-Told ctx customer user_text t db a lawful)
