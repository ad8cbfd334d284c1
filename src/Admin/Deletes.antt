-- ===== src/Admin/Deletes.antt =====
-- crates/garret-pusher/src/admin.rs: what `delete` leaves of the rows, and of the claims.
use garret.Common.Result.{Result}
use garret.Deletion.{Deletion}
use garret.Admin.Removed.{Removed}
