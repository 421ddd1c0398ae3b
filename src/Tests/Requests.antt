-- ===== src/Tests/Requests.antt =====
-- Requests at the small installation.
use ctyun_zos.Prelude.{ℕ, refl, Option, none, some, List, codes}
use ctyun_zos.Data.{present}
use ctyun_zos.Database.Tasks.{task_by_id}
use ctyun_zos.Database.Tasks.Rows.{find_row}
use ctyun_zos.Interference.{row_at}
use ctyun_zos.Security.{matches_delete_token}
use ctyun_zos.Deletions.{delete_task_object, strict_delete}
use ctyun_zos.Deletions.Requests.{
  IsRead, Ended, delete_with_token, IsDenied, delete_task_object-IsDenied,
}
use ctyun_zos.Deletions.Outcomes.{Reported, row_of, strict_delete-Reported}
use ctyun_zos.Deletions.Strict.{IsStrict, delete_task_object-IsStrict}
use ctyun_zos.Uploads.Handler.{store_upload}
use ctyun_zos.Uploads.Outcomes.{Stored, store_upload-Stored}
use ctyun_zos.Tests.Fixtures.{
  calm, calm-LeavesRow, small_world, small_db-IsValid, present_task, open_task, present_row,
  delete_request, upload_request, first_snapshot,
}

small_world-IsRead :
    (token : Option (List ℕ)) → IsRead calm (delete_request token) small_world present_row
unfolding task_by_id find_row
small_world-IsRead token = record { uuid = refl; no_body = refl; no_fault = refl; found = refl }

delete_with_token_example :
    let (r, w') = delete_task_object calm (delete_request (some (codes "token"))) small_world in
    Ended (delete_request (some (codes "token"))) present_task r (row_of present_task w')
unfolding matches_delete_token find_row
delete_with_token_example =
    delete_with_token calm (delete_request (some (codes "token"))) small_world present_row
      (small_world-IsRead (some (codes "token"))) refl refl (refl, refl) (calm-LeavesRow 20)
      small_db-IsValid

delete_task_object-IsDenied_example :
    IsDenied calm small_world (delete_task_object calm (delete_request none) small_world)
unfolding matches_delete_token
delete_task_object-IsDenied_example =
    delete_task_object-IsDenied calm (delete_request none) small_world refl λ row e. refl

delete_task_object-IsStrict_example :
    IsStrict present_task
      (delete_task_object calm (delete_request (some (codes "token"))) small_world).1.trace
unfolding task_by_id find_row
delete_task_object-IsStrict_example =
    delete_task_object-IsStrict calm (delete_request (some (codes "token"))) small_world present_row
      refl tt

strict_delete-Reported_example :
    let (r, w') = strict_delete calm present_task present small_world in
    Reported present_task present r (row_of present_task w')
unfolding find_row
strict_delete-Reported_example =
    strict_delete-Reported calm present_task present_task present small_world refl
      (calm-LeavesRow 20) refl (small_db-IsValid, refl)

store_upload-Stored_example :
    let (r, w') = store_upload calm (upload_request none) open_task 5 first_snapshot small_world in
    Stored calm 5 open_task r (row_at 21 w')
unfolding find_row
store_upload-Stored_example =
    store_upload-Stored calm (upload_request none) open_task open_task 5 first_snapshot small_world
      (calm-LeavesRow 21) refl (small_db-IsValid, refl)
