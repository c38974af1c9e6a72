-- ===== src/Service/Keeping.antt =====
-- Relations between the database before and after an operation: each operation keeps one when its
-- parts do.
use certo.Prelude.{◌≡◌, refl, ◌∙◌, Bool, true, false, Result, ok, err, if◌then◌else◌}
use certo.Names.{Code}
use certo.Db.{Db, DbError}
use certo.Pdns.{PdnsError, Api}
use certo.Service.{
  World, ZoneOpError, invalid, Action, pure, fail, go_on, ◌>>=◌, ◌>>◌, require, checked, answered,
  reads, looks_up, stored, transacts, changed, updates, received, sends, sends_or, from_pdns,
  attempt,
}

-- The databases before and after are related, whether the operation succeeds or fails.
pub record Keeps {E S A : Type 0} (R : Db → Db → Type 0) (m : Action E S A) : Type 0 where
  pub keeps : (w : World S) → R w.db (m w).1.db

pub record Preorder (R : Db → Db → Type 0) : Type 0 where
  pub same : (db : Db) → R db db
  pub trans : {a b c : Db} → R a b → R b c → R a c

module _ {S : Type 0} (R : Db → Db → Type 0) ⦃order : Preorder R⦄ where
  answered-Keeps : {A : Type 0} (w : World S) (r : Result DbError A) → R w.db (answered w r).1.db
  answered-Keeps w (ok a) = order.same w.db
  answered-Keeps w (err e) = order.same w.db

  received-Keeps :
      {A : Type 0} (of : PdnsError → ZoneOpError) (w : World S) (r : Result PdnsError A × S)
      → R w.db (received of w r).1.db
  received-Keeps of w (ok a, s) = order.same w.db
  received-Keeps of w (err e, s) = order.same w.db

  stored-Keeps :
      {A : Type 0} (w : World S) (r : Result DbError (A × Db))
      → ((a : A) (db : Db) → r ≡ ok (a, db) → R w.db db)
      → R w.db (stored w r).1.db
  stored-Keeps w (ok (a, db)) h = h a db refl
  stored-Keeps w (err e) h = order.same w.db

  changed-Keeps :
      (w : World S) (r : Result DbError Db)
      → ((db : Db) → r ≡ ok db → R w.db db)
      → R w.db (changed w r).1.db
  changed-Keeps w (ok db) h = h db refl
  changed-Keeps w (err e) h = order.same w.db

module _ {S : Type 0} {R : Db → Db → Type 0} ⦃order : Preorder R⦄ where
  go_on-Keeps :
      {E A B : Type 0} (db : Db) (f : A → Action E S B) (out : Result E A × World S)
      → R db out.1.db
      → ((a : A) → Keeps R (f a))
      → R db (go_on f out).1.db
  go_on-Keeps db f (ok a, w) h k = order.trans h ((k a).keeps w)
  go_on-Keeps db f (err e, w) h k = h

  pub >>=-Keeps :
      {E A B : Type 0} {m : Action E S A} {f : A → Action E S B}
      → Keeps R m
      → ((a : A) → Keeps R (f a))
      → Keeps R (m >>= f)
  unfolding ◌>>=◌
  >>=-Keeps {m} {f} h k = record { keeps = λ w. go_on-Keeps w.db f (m w) (h.keeps w) k }

  pub >>-Keeps :
      {E B : Type 0} {m : Action E S (Unit {0})} {n : Action E S B}
      → Keeps R m
      → Keeps R n
      → Keeps R (m >> n)
  unfolding ◌>>◌
  >>-Keeps h k = >>=-Keeps h (λ _. k)

  pub if-Keeps :
      {E A : Type 0} (b : Bool) {m n : Action E S A}
      → Keeps R m
      → Keeps R n
      → Keeps R (if b then m else n)
  if-Keeps true h k = h
  if-Keeps false h k = k

  pub pure-Keeps : {E A : Type 0} (a : A) → Keeps {E = E} {S = S} R (pure a)
  unfolding pure
  pure-Keeps a = record { keeps = λ w. order.same w.db }

  pub fail-Keeps : {E A : Type 0} (e : E) → Keeps {S = S} {A = A} R (fail e)
  unfolding fail
  fail-Keeps e = record { keeps = λ w. order.same w.db }

  pub require-Keeps : {E : Type 0} (b : Bool) (e : E) → Keeps {S = S} R (require b e)
  unfolding require
  require-Keeps true e = pure-Keeps tt
  require-Keeps false e = fail-Keeps e

  pub checked-Keeps : {A : Type 0} (r : Result Code A) → Keeps {S = S} R (checked r)
  unfolding checked
  checked-Keeps (ok a) = pure-Keeps a
  checked-Keeps (err code) = fail-Keeps (invalid code)

  pub reads-Keeps : {E A : Type 0} (f : Db → A) → Keeps {E = E} {S = S} R (reads f)
  unfolding reads
  reads-Keeps f = record { keeps = λ w. order.same w.db }

  pub looks_up-Keeps : {A : Type 0} (f : Db → Result DbError A) → Keeps {S = S} R (looks_up f)
  unfolding looks_up
  looks_up-Keeps f = record { keeps = λ w. answered-Keeps R w (f w.db) }

  pub sends_or-Keeps :
      {A : Type 0} (of : PdnsError → ZoneOpError) (request : Api S A)
      → Keeps {S = S} R (sends_or of request)
  unfolding sends_or
  sends_or-Keeps of request = record { keeps = λ w. received-Keeps R of w (request w.pdns) }

  pub sends-Keeps : {A : Type 0} (request : Api S A) → Keeps {S = S} R (sends request)
  unfolding sends
  sends-Keeps request = sends_or-Keeps from_pdns request

  -- A transaction keeps what its results do.
  pub transacts-Keeps :
      {A : Type 0} (f : Db → Result DbError (A × Db))
      → ((db db' : Db) (a : A) → f db ≡ ok (a, db') → R db db')
      → Keeps {S = S} R (transacts f)
  unfolding transacts
  transacts-Keeps f h = record { keeps = λ w. stored-Keeps R w (f w.db) (λ a db e. h w.db db a e) }

  pub updates-Keeps :
      (f : Db → Result DbError Db)
      → ((db db' : Db) → f db ≡ ok db' → R db db')
      → Keeps {S = S} R (updates f)
  unfolding updates
  updates-Keeps f h = record { keeps = λ w. changed-Keeps R w (f w.db) (λ db e. h w.db db e) }

  pub attempt-Keeps : {E F A : Type 0} {m : Action E S A} → Keeps R m → Keeps {E = F} R (attempt m)
  unfolding attempt
  attempt-Keeps h = record { keeps = λ w. h.keeps w }

abbrev pub Same : Db → Db → Type 0
Same a b = a ≡ b

instance abbrev pub Same-Preorder : Preorder Same
Same-Preorder = record { same = λ db. refl; trans = λ p q. p ∙ q }

pub ruleset keeping = (
  >>=-Keeps, >>-Keeps, if-Keeps, pure-Keeps, fail-Keeps, require-Keeps, checked-Keeps, reads-Keeps,
  looks_up-Keeps, sends-Keeps, sends_or-Keeps, attempt-Keeps,
)
