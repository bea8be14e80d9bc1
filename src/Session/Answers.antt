-- ===== src/Session/Answers.antt =====
-- battle_session.py: the ledger after an answered request.
use battle_belief.Base.{
  ℕ, ◌≤◌, ◌<◌, false, Option, none, some, List, [], ◌∷◌, ◌≡◌, inl, inr, refl, sym, subst, All,
  arith, ◌==◌, option_eq, nat_eq, string_eq,
}
use battle_belief.Actions.{
  explicit_request, server_default, RequestIdentity, BattleSubmission, submission_eq, provenance_eq,
  identity_eq,
}
use battle_belief.Session.Records.{DecisionRecordStatus, DecisionRecordErrorCode}
use battle_belief.Session.Model.{Sent, Environment, Session, keep_error}
use battle_belief.Session.Steps.{finalize_pending, reject_reconciliation}
use battle_belief.Session.Ledger.{
  Ledger, ledger_of, Left, IsAnswered, AreAnswers, IsAuthorized, count_of, IsSoundLedger,
  finalize_pending-keeps,
}

-- A session with a sound ledger.
abbrev pub IsSound : Environment → Session → Type 0
IsSound env s = IsSoundLedger env (ledger_of s)

pub finalize-IsSound :
    (env : Environment) (status : DecisionRecordStatus) (code : Option DecisionRecordErrorCode)
    (selected : Option BattleSubmission) (s : Session)
    → IsSound env s
    → IsSound env (finalize_pending env status code selected s)
finalize-IsSound env = finalize_pending-keeps (IsSoundLedger env) env

pub reject_reconciliation-IsSound :
    (env : Environment) (s : Session)
    → IsSound env s
    → Left (IsSound env) (reject_reconciliation env s)
unfolding reject_reconciliation
reject_reconciliation-IsSound env s v = finalize-IsSound env _ _ _ (keep_error _ s) v

-- Nothing is pending any more.
pub settled-IsSoundLedger :
    (env : Environment) (l : Ledger)
    → IsSoundLedger env l
    → IsSoundLedger env (record l { pending = none })
settled-IsSoundLedger env l v = record {
  pending_latest = tt;
  pending_read = tt;
  answered = v.answered;
  answers = v.answers;
  once = v.once;
  authorized = v.authorized;
  explicit_counted = v.explicit_counted;
  defaults_counted = v.defaults_counted;
}

All-le_of :
    (sent : List Sent) (m n : ℕ) → m ≤ n → All (λ x. x.rqid ≤ m) sent → All (λ x. x.rqid ≤ n) sent
All-le_of [] m n le h = tt
All-le_of (x ∷ sent) m n le h = (omega (arith, h.0), All-le_of sent m n le h.1)

All-lt_of :
    (sent : List Sent) (m n : ℕ) → m < n → All (λ x. x.rqid ≤ m) sent → All (λ x. x.rqid < n) sent
All-lt_of [] m n lt h = tt
All-lt_of (x ∷ sent) m n lt h = (omega (arith, h.0), All-lt_of sent m n lt h.1)

-- No command was sent for a request newer than the latest one.
answers_latest :
    (submitted : Option RequestIdentity) (latest : RequestIdentity) (sent : List Sent)
    → IsAnswered submitted (some latest)
    → AreAnswers submitted sent
    → All (λ x. x.rqid ≤ latest.rqid) sent
answers_latest none latest sent answered answers = rw answers tt
answers_latest (some i) latest sent (inl same) answers =
    All-le_of sent i.rqid latest.rqid (ground arith) answers
answers_latest (some i) latest sent (inr older) answers =
    All-le_of sent i.rqid latest.rqid (omega arith) answers

-- If the latest request is not answered, every command was sent for an older one.
answers_unanswered :
    (submitted : Option RequestIdentity) (latest : RequestIdentity) (sent : List Sent)
    → IsAnswered submitted (some latest)
    → AreAnswers submitted sent
    → (some latest == submitted) ≡ false
    → All (λ x. x.rqid < latest.rqid) sent
answers_unanswered none latest sent answered answers other = rw answers tt
answers_unanswered (some i) latest sent (inl same) answers other = absurd (ground arith)
answers_unanswered (some i) latest sent (inr older) answers other =
    All-lt_of sent i.rqid latest.rqid older answers

latest_known :
    (env : Environment) (l : Ledger) (i : RequestIdentity)
    → IsSoundLedger env l
    → l.latest ≡ some i
    → IsAnswered l.submitted (some i)
latest_known env l i v latest = subst (λ known. IsAnswered l.submitted known) latest v.answered

-- The latest request is answered without a command.
pub noop-IsSoundLedger :
    (env : Environment) (l : Ledger) (i : RequestIdentity)
    → l.latest ≡ some i
    → IsSoundLedger env l
    → IsSoundLedger env (record l { pending = none; submitted = some i })
noop-IsSoundLedger env l i latest v = record {
  pending_latest = tt;
  pending_read = tt;
  answered = subst (λ known. IsAnswered (some i) known) (sym latest) (inl refl);
  answers = answers_latest l.submitted i l.sent (latest_known env l i v latest) v.answers;
  once = v.once;
  authorized = v.authorized;
  explicit_counted = v.explicit_counted;
  defaults_counted = v.defaults_counted;
}

-- The latest request is answered with a command.
pub sent-IsSoundLedger :
    (env : Environment) (l : Ledger) (i : RequestIdentity) (x : Sent) (explicit defaults : ℕ)
    → l.latest ≡ some i
    → (some i == l.submitted) ≡ false
    → x.rqid ≡ i.rqid
    → IsAuthorized env x
    → explicit ≡ count_of explicit_request (x ∷ l.sent)
    → defaults ≡ count_of server_default (x ∷ l.sent)
    → IsSoundLedger env l
    → IsSoundLedger env (record {
      pending = none;
      latest = l.latest;
      submitted = some i;
      sent = x ∷ l.sent;
      explicit = explicit;
      defaults = defaults;
    })
sent-IsSoundLedger env l i x explicit defaults latest other same auth ex de v =
    let known = latest_known env l i v latest in
    record {
      pending_latest = tt;
      pending_read = tt;
      answered = subst (λ known. IsAnswered (some i) known) (sym latest) (inl refl);
      answers = (omega (arith, same), answers_latest l.submitted i l.sent known v.answers);
      once = (
        subst (λ n. All (λ y. y.rqid < n) l.sent) (sym same)
            (answers_unanswered l.submitted i l.sent known v.answers other),
        v.once,
      );
      authorized = (auth, v.authorized);
      explicit_counted = ex;
      defaults_counted = de;
    }
