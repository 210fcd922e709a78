-- ===== src/Db/Tests.antt =====
-- The theorems on db.c at a small database: a peer is in it once a peer was inserted.
use traccoon.Db.Balance.{Balanced}
use traccoon.Db.Create.{
  db_error, create_empty_database, all_ok, is_closed, create_empty_database-all_ok,
}
use traccoon.Db.Open.{IsDisciplined, downloads_counted}
use traccoon.Db.Update.{AddedOn, counted_for, update_peer-Balanced, add_peer-Added}
use traccoon.Db.{add_peer, update_peer}
use traccoon.Prelude.{◌≡◌, ◌&&◌, [], if◌then◌else◌, pos, ==ℤ}
use traccoon.Db.Sample.{small, request, small-StepsNotOk, small-FindsAdded}

update_peer-Balanced_example :
    (b : Balanced small [] (update_peer small 2 (pos 3) request [])) × (downloads_counted small
        b.after
      ≡ counted_for request b.result (downloads_counted small []))
unfolding IsDisciplined
update_peer-Balanced_example =
    update_peer-Balanced small 0 (pos 3) request [] small-StepsNotOk (small-FindsAdded (pos 3)) tt

add_peer-Added_example :
    (b : Balanced small [] (add_peer small request (pos 3) [])) × AddedOn
      (==ℤ b.result (pos 0))
      small
      (pos 3)
      request.peer_id
      b.after
unfolding IsDisciplined
add_peer-Added_example = add_peer-Added small request (pos 3) [] small-StepsNotOk tt

create_empty_database-all_ok_example : (create_empty_database (λ h c. pos 0)).0 ≡ (
    if is_closed (create_empty_database (λ h c. pos 0)).1
      && all_ok (λ h c. pos 0) (create_empty_database (λ h c. pos 0)).1
    then pos 0
    else db_error)
create_empty_database-all_ok_example = create_empty_database-all_ok (λ h c. pos 0)
