-- ===== src/Db/Accounts.antt =====
-- crates/certo-db/src/store.rs, users, their challenge domains and API keys. `time` is the result of
-- `now()`; random identifiers are arguments.
use certo.Prelude.{
  ℕ, zero, suc, ◌+◌, Bool, not, ◌&&◌, ◌||◌, Option, none, some, List, [], ◌∷◌, ◌++◌, map, ltb, leb,
  ◌==◌, if◌then◌else◌, Result, ok, err, ◌>>=◌, ◌>>◌, guard, any, select, reject, find, update_where,
  order_by,
}
use certo.Text.{Str, Unicode, str, str_eq, str_leb}
use certo.Core.{User, UserDomain, ApiKey, internal_domain}
use certo.Core.Ids.{subdomain}
use certo.Db.{
  What, DbError, not_found, conflict, exhausted, constraint, DomainRow, Db, normalize, or_not_found,
}
use certo.Db.Zones.{bump_base_zone, delete_user_zones}
use certo.Db.Txt.{named}

abbrev pub no_login_hash : Str
no_login_hash = str "!"

abbrev pub retries : ℕ
retries = 10

abbrev pub has_user_id : ℕ → User → Bool
has_user_id id u = u.id == id

abbrev pub has_username : Str → User → Bool
has_username name u = str_eq u.username name

abbrev pub has_key : Str → ApiKey → Bool
has_key value k = str_eq k.key value

-- INSERT INTO users
abbrev pub insert_user : Db → Str → Str → ℕ → Db
insert_user db username hash time = record db {
  users =
      db.users
      ++ (record {
        id = db.last_user + 1;
        username = username;
        password_hash = hash;
        created_at = time;
      }
          ∷ []);
  last_user = db.last_user + 1;
}

-- INSERT INTO api_keys
abbrev pub insert_key : Db → ℕ → Str → Str → List Str → ℕ → Db
insert_key db uid name value scope time = record db {
  api_keys =
      db.api_keys
      ++ (record {
        id = db.last_key + 1;
        user_id = uid;
        name = name;
        key = value;
        scope = scope;
        created_at = time;
      }
          ∷ []);
  last_key = db.last_key + 1;
}

-- INSERT INTO user_domains
abbrev pub insert_domain : Db → ℕ → Str → Str → List Str → Db
insert_domain db uid name sub allowfrom = record db {
  user_domains =
      db.user_domains
      ++ (record { user_id = uid; domain = name; subdomain = sub; allowfrom = allowfrom } ∷ []);
}

unfoldable pub create_user : Db → ℕ → Str → Str → Str → Result DbError (User × Db)
create_user db time key username hash = do
  guard (not (any (has_username username) db.users)) (conflict What.user)
  guard (not (any (has_key key) db.api_keys)) constraint
  let id = db.last_user + 1
  ok (
    record { id = id; username = username; password_hash = hash; created_at = time },
    insert_key (insert_user db username hash time) id (str "Default") key (str "*" ∷ []) time,
  )

-- The random identifiers of one attempt.
pub record Draw : Type 0 where
  pub username : Str
  pub subdomain : Str
  pub key : Str

-- Whether a statement of the attempt breaks a uniqueness constraint.
unfoldable pub collides : Db → Draw → Bool
collides db d =
    any (has_username d.username) db.users
    || any (has_key d.key) db.api_keys
    || any (λ r. str_eq r.subdomain d.subdomain) db.user_domains

abbrev pub acmedns_account : Db → ℕ → Draw → List Str → Db
acmedns_account db time d allow_from =
    let uid = db.last_user + 1 in
    insert_domain
      (insert_key (insert_user db d.username no_login_hash time) uid (str "acme-dns") d.key
        (str "*" ∷ []) time)
      uid d.subdomain d.subdomain allow_from

-- The loop; attempt `i` draws `draws i`, and `left` attempts are left.
unfoldable pub try_accounts : Db → ℕ → (ℕ → Draw) → List Str → ℕ → ℕ → Result DbError (Draw × Db)
try_accounts db time draws allow_from i zero = err (exhausted What.acmedns_account)
try_accounts db time draws allow_from i (suc left) =
    let again = try_accounts db time draws allow_from (suc i) left in
    if collides db (draws i)
    then again
    else ok (draws i, acmedns_account db time (draws i) allow_from)

unfoldable pub create_acmedns_account : Db → ℕ → (ℕ → Draw) → List Str → Result DbError (Draw × Db)
create_acmedns_account db time draws allow_from = try_accounts db time draws allow_from 0 retries

unfoldable pub user_by_username : Db → Str → Result DbError User
user_by_username db name = or_not_found What.user (find (has_username name) db.users)

unfoldable pub user_by_id : Db → ℕ → Result DbError User
user_by_id db id = or_not_found What.user (find (has_user_id id) db.users)

unfoldable pub set_password_hash : Db → ℕ → Str → Result DbError Db
set_password_hash db id hash = do
  guard (any (has_user_id id) db.users) (not_found What.user)
  ok (record db {
    users = update_where (has_user_id id) (λ u. record u { password_hash = hash }) db.users;
  })

abbrev by_id : User → User → Bool
by_id a b = leb a.id b.id

unfoldable pub list_users : Db → List User
list_users db = order_by by_id db.users

-- `t.Domain = d.subdomain || '.' || base`, for a domain of the user.
abbrev pub was_used : Db → Str → User → Bool
was_used db base u =
    any (λ d. d.user_id == u.id && any (named (d.subdomain ++ (b'.' ∷ base))) db.txt)
      db.user_domains

unfoldable pub stale_acmedns_accounts : Db → ℕ → Str → List User
stale_acmedns_accounts db before base = order_by by_id (
    select
      (λ u.
        str_eq u.password_hash no_login_hash
        && (ltb u.created_at before && not (was_used db base u)))
      db.users)

unfoldable pub delete_subdomain_txt : Db → Str → Str → Db
delete_subdomain_txt db sub base =
    bump_base_zone (record db { txt = reject (named (internal_domain sub base)) db.txt })

unfoldable pub delete_subdomains_txt : Db → List Str → Str → Db
delete_subdomains_txt db [] base = db
delete_subdomains_txt db (s ∷ ss) base =
    delete_subdomains_txt (delete_subdomain_txt db s base) ss base

unfoldable pub delete_user : Db → ℕ → Str → List Str × Db
delete_user db id base =
    let subs = map (λ r. r.subdomain) (select (λ r. r.user_id == id) db.user_domains) in
    let db1 = delete_user_zones (delete_subdomains_txt db subs base) id in
    (
      map (λ s. internal_domain s base) subs,
      record db1 {
        api_keys = reject (λ k. k.user_id == id) db1.api_keys;
        user_domains = reject (λ r. r.user_id == id) db1.user_domains;
        users = reject (has_user_id id) db1.users;
      },
    )

abbrev pub is_domain : ℕ → Str → DomainRow → Bool
is_domain uid name r = r.user_id == uid && str_eq r.domain name

-- Whether the INSERT breaks a constraint: the subdomain is taken, or the user does not exist. The
-- code retries on both.
abbrev pub refused : Db → ℕ → Str → Bool
refused db uid sub =
    any (λ r. str_eq r.subdomain sub) db.user_domains || not (any (has_user_id uid) db.users)

module _ ⦃u : Unicode⦄ (sha256 : Str → List ℕ) where
  unfoldable pub try_subdomains : Db → ℕ → Str → Str → ℕ → ℕ → Result DbError (UserDomain × Db)
  try_subdomains db uid username name salt zero = err (exhausted What.subdomain)
  try_subdomains db uid username name salt (suc left) =
      let sub = subdomain sha256 username name salt in
      let again = try_subdomains db uid username name (suc salt) left in
      if refused db uid sub
      then again
      else ok (
        record { domain = name; subdomain = sub; owner = none },
        insert_domain db uid name sub [],
      )

  unfoldable pub add_user_domain : Db → ℕ → Str → Str → Result DbError (UserDomain × Db)
  add_user_domain db uid username given = do
    let name = normalize given
    guard (not (any (is_domain uid name) db.user_domains)) (conflict What.domain)
    try_subdomains db uid username name 0 retries

abbrev pub drop_domain : Db → ℕ → Str → Str → Option DomainRow → Option Str × Db
drop_domain db uid name base none = (none, db)
drop_domain db uid name base (some row) =
    let db1 = delete_subdomain_txt db row.subdomain base in
    (
      some (internal_domain row.subdomain base),
      record db1 { user_domains = reject (is_domain uid name) db1.user_domains },
    )

module _ ⦃u : Unicode⦄ where
  unfoldable pub remove_user_domain : Db → ℕ → Str → Str → Option Str × Db
  remove_user_domain db uid given base =
      let name = normalize given in
      drop_domain db uid name base (find (is_domain uid name) db.user_domains)

  unfoldable pub subdomain_by_user_domain : Db → ℕ → Str → Result DbError Str
  subdomain_by_user_domain db uid given = do
    r ← or_not_found What.domain (find (is_domain uid (normalize given)) db.user_domains)
    ok r.subdomain

  unfoldable pub subdomain_owner : Db → Str → Result DbError ℕ
  subdomain_owner db given = do
    r ←
        or_not_found What.subdomain
          (find (λ r. str_eq r.subdomain (normalize given)) db.user_domains)
    ok r.user_id

  unfoldable pub user_domain_by_subdomain : Db → Str → Result DbError (ℕ × Str × List Str)
  user_domain_by_subdomain db given = do
    r ←
        or_not_found What.subdomain
          (find (λ r. str_eq r.subdomain (normalize given)) db.user_domains)
    ok (r.user_id, r.domain, r.allowfrom)

abbrev domain_le : DomainRow → DomainRow → Bool
domain_le a b = str_leb a.domain b.domain

abbrev pub listed_domain : DomainRow → UserDomain
listed_domain r = record { domain = r.domain; subdomain = r.subdomain; owner = none }

unfoldable pub user_domains_of : Db → ℕ → List UserDomain
user_domains_of db uid =
    map listed_domain (order_by domain_le (select (λ r. r.user_id == uid) db.user_domains))

unfoldable pub create_api_key : Db → ℕ → Str → ℕ → Str → List Str → Result DbError (ApiKey × Db)
create_api_key db time key uid name scope = do
  guard (any (has_user_id uid) db.users) constraint
  guard (not (any (has_key key) db.api_keys)) constraint
  ok (
    record {
      id = db.last_key + 1;
      user_id = uid;
      name = name;
      key = key;
      scope = scope;
      created_at = time;
    },
    insert_key db uid name key scope time,
  )

abbrev by_created_at : ApiKey → ApiKey → Bool
by_created_at a b = leb a.created_at b.created_at

unfoldable pub list_api_keys : Db → ℕ → List ApiKey
list_api_keys db uid = order_by by_created_at (select (λ k. k.user_id == uid) db.api_keys)

unfoldable pub delete_api_key : Db → ℕ → ℕ → Db
delete_api_key db uid key_id = record db {
  api_keys = reject (λ k. k.id == key_id && k.user_id == uid) db.api_keys;
}

unfoldable pub api_key_by_value : Db → Str → Result DbError ApiKey
api_key_by_value db value = or_not_found What.api_key (find (has_key value) db.api_keys)

unfoldable pub update_api_key_scope : Db → ℕ → List Str → Db
update_api_key_scope db key_id scope = record db {
  api_keys = update_where (λ k. k.id == key_id) (λ k. record k { scope = scope }) db.api_keys;
}

-- The JOIN of `list_all_domains`: a row for each domain whose user exists.
unfoldable pub with_owners : Db → List DomainRow → List UserDomain
with_owners db [] = []
with_owners db (r ∷ rs) =
    elim (find (has_user_id r.user_id) db.users) [
      | none ↦ []
      | some u ↦ record { domain = r.domain; subdomain = r.subdomain; owner = some u.username } ∷ []
    ]
    ++ with_owners db rs

unfoldable pub list_all_domains : Db → List UserDomain
list_all_domains db = with_owners db (order_by domain_le db.user_domains)
