-- ===== src/Db/Leftovers.antt =====
-- `delete_user`: what is left of the user, which is nothing.
use certo.Db.{Db}
