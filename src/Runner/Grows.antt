-- ===== src/Runner/Grows.antt =====
-- What a sequence of operations that returns a value has done.
use mha_go.Base.{
  Text, [], ◌∷◌, ◌++◌, append-nil, append_assoc, Result, ok, err, In, ◌≡◌, refl, sym, ap, subst,
  ◌∙◌,
}
use mha_go.Base.Lists.{head, In-append_left, In-append_right}
use mha_go.Base.Errors.{map_err-eq-ok}
use mha_go.Runner.{SqlOp, SqlError, SqlLog, Servers, Act, give, from, go_on, ◌>>=◌, ask}

-- The operation was carried out, with the answer.
abbrev pub Did : SqlLog → SqlOp → Text → Type 0
Did t op a = In (op, ok a) t

-- Whatever a sequence does, it adds to the log.
pub Grows : {A : Type 0} → Act A → Type 0
Grows act = (t : SqlLog) → (u : SqlLog) × ((act t).1 ≡ t ++ u)

-- What is in the log stays in it.
pub Did-Grows :
    {A : Type 0} (act : Act A) {t : SqlLog} {op : SqlOp} {a : Text}
    → Grows act
    → Did t op a
    → Did (act t).1 op a
unfolding Grows
Did-Grows act {t} {op} {a} grows did =
    let (u, e) = grows t in subst (λ l. Did l op a) (sym e) (In-append_left u did)

pub from-Grows : {A : Type 0} (r : Result Text A) → Grows (from r)
unfolding Grows
from-Grows r t = ([], sym (append-nil t))

pub give-Grows : {A : Type 0} (a : A) → Grows (give a)
unfolding Grows
give-Grows a t = ([], sym (append-nil t))

pub ask-Grows : (servers : Servers) (wrap : Text → Text) (op : SqlOp) → Grows (ask servers wrap op)
unfolding Grows ask
ask-Grows servers wrap op t = ((op, servers t op) ∷ [], refl)

go_on-Grows :
    {A B : Type 0} (rest : A → Act B) (r : Result Text A × SqlLog)
    → ((a : A) → Grows (rest a))
    → (u : SqlLog) × ((go_on rest r).1 ≡ r.1 ++ u)
unfolding Grows
go_on-Grows rest (err e, t) grows = ([], sym (append-nil t))
go_on-Grows rest (ok a, t) grows = grows a t

pub >>=-Grows :
    {A B : Type 0} (act : Act A) (rest : A → Act B)
    → Grows act
    → ((a : A) → Grows (rest a))
    → Grows (act >>= rest)
unfolding Grows
>>=-Grows act rest grows later t =
    let (u, e) = grows t in
    let (v, f) = go_on-Grows rest (act t) later in
    (u ++ v, f ∙ (ap (λ l. l ++ v) e ∙ append_assoc t u v))

-- The sequence returns the value, with the log behind it.
abbrev pub Returns : {A : Type 0} → Act A → SqlLog → A → SqlLog → Type 0
Returns act t a u = act t ≡ (ok a, u)

pub returns_of : {A : Type 0} (r : Result Text A × SqlLog) {a : A} → r.0 ≡ ok a → r ≡ (ok a, r.1)
returns_of r h = ap (λ x. (x, r.1)) h

go_on-Returns :
    {A B : Type 0} (rest : A → Act B) (r : Result Text A × SqlLog) {b : B} {u : SqlLog}
    → go_on rest r ≡ (ok b, u)
    → (a : A) × (v : SqlLog) × (r ≡ (ok a, v)) × Returns (rest a) v b u
go_on-Returns rest (err e, t) h = cc
go_on-Returns rest (ok a, t) h = (a, t, refl, h)

-- A sequence that returns a value has the first one's, and goes on behind it.
pub >>=-Returns :
    {A B : Type 0} (act : Act A) (rest : A → Act B) {t : SqlLog} {b : B} {u : SqlLog}
    → Returns (act >>= rest) t b u
    → (a : A) × (v : SqlLog) × Returns act t a v × Returns (rest a) v b u
>>=-Returns act rest {t} h = go_on-Returns rest (act t) h

pub from-Returns :
    {A : Type 0} (r : Result Text A) {t : SqlLog} {a : A} {u : SqlLog}
    → Returns (from r) t a u
    → r ≡ ok a
from-Returns r h = ap (λ x. x.0) h

pub ask-Did :
    (servers : Servers) (wrap : Text → Text) (op : SqlOp) (t : SqlLog) {a : Text} {u : SqlLog}
    → Returns (ask servers wrap op) t a u
    → Did u op a
unfolding ask
ask-Did servers wrap op t {a} {u} h =
    let answer = map_err-eq-ok _ (servers t op) (ap (λ x. x.0) h) in
    subst (λ (l : SqlLog). Did l op a) (ap (λ x. x.1) h)
      (In-append_right t (
        subst
          (λ (r : Result SqlError Text).
            In {A = SqlOp × Result SqlError Text} (op, ok a) ((op, r) ∷ []))
          (sym answer) head))

pub Did-Returns :
    {A : Type 0} (act : Act A) {t : SqlLog} {op : SqlOp} {a : Text} {x : A} {u : SqlLog}
    → Grows act
    → Returns act t x u
    → Did t op a
    → Did u op a
Did-Returns act {op = op} {a = a} grows h did =
    subst (λ (l : SqlLog). Did l op a) (ap (λ x. x.1) h) (Did-Grows act grows did)
