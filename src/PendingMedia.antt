-- ===== src/PendingMedia.antt =====
-- The photos of a chat on their way to a product: the table `pending_media` of
-- server/src/data/repo.ts. Times are seconds.
pub mod Order
pub mod Calls
pub mod Gallery
mod Examples
use shopify_vitrina.Base.{
  ℕ, ◌+◌, Bool, true, false, ◌&&◌, ◌||◌, Option, none, some, List, [], ◌∷◌, ◌++◌, ltb, leb, eqb,
  if◌then◌else◌, Text, ◌==◌, select, update, delete, length, ◌*◌,
}
use shopify_vitrina.Inbox.Rows.{or_else}

pub record PendingPhoto : Type 0 where
  pub id : ℕ
  pub phone : Text
  pub file_path : Text
  pub public_path : Text
  pub caption : Option Text
  pub sent_at : Option ℕ
  pub received_at : ℕ
  pub attached_to : Option Text
  pub attached_at : Option ℕ

pub record PendingTable : Type 0 where
  pub rows : List PendingPhoto
  pub next_id : ℕ

pub record PhotoInput : Type 0 where
  pub phone : Text
  pub file_path : Text
  pub public_path : Text
  pub caption : Option Text
  pub sent_at : Option ℕ

unfoldable pub add_pending_media : PendingTable → ℕ → PhotoInput → PendingTable
add_pending_media db now photo = record {
  rows =
      db.rows
      ++ record {
        id = db.next_id;
        phone = photo.phone;
        file_path = photo.file_path;
        public_path = photo.public_path;
        caption = photo.caption;
        sent_at = photo.sent_at;
        received_at = now;
        attached_to = none;
        attached_at = none;
      }
        ∷ [];
  next_id = db.next_id + 1;
}

abbrev pub unattached : PendingPhoto → Bool
unattached p = elim p.attached_to [ none ↦ true | some gid ↦ false ]

-- `ORDER BY COALESCE(sent_at, 0) ASC, received_at ASC, id ASC`, on rows in the order of their ids.
abbrev pub before : PendingPhoto → PendingPhoto → Bool
before p q =
    ltb (or_else p.sent_at 0) (or_else q.sent_at 0)
    || (eqb (or_else p.sent_at 0) (or_else q.sent_at 0) && leb p.received_at q.received_at)

unfoldable pub insert_photo : PendingPhoto → List PendingPhoto → List PendingPhoto
insert_photo p [] = p ∷ []
insert_photo p (q ∷ qs) =
    let later = insert_photo p qs in if before p q then p ∷ q ∷ qs else q ∷ later

unfoldable pub in_order : List PendingPhoto → List PendingPhoto
in_order [] = []
in_order (p ∷ ps) = insert_photo p (in_order ps)

unfoldable pub list_pending_media : PendingTable → Text → List PendingPhoto
list_pending_media db phone = in_order (select (λ p. p.phone == phone && unattached p) db.rows)

unfoldable pub mark_attached : PendingTable → ℕ → List ℕ → Text → PendingTable
mark_attached db now [] gid = db
mark_attached db now (id ∷ ids) gid =
    mark_attached
      (record db {
        rows =
            update (λ p. eqb p.id id)
              (λ p. record p { attached_to = some gid; attached_at = some now }) db.rows;
      })
      now ids gid

-- `attached_to IS NULL AND received_at < datetime('now', '-<hours> hours')`
abbrev pub never_placed : ℕ → ℕ → PendingPhoto → Bool
never_placed now hours p = unattached p && ltb (p.received_at + hours * 3600) now

-- The rows; the files are removed with them.
unfoldable pub delete_stale_pending_media : PendingTable → ℕ → ℕ → PendingTable × ℕ
delete_stale_pending_media db now hours = (
  record db { rows = delete (never_placed now hours) db.rows },
  length (select (never_placed now hours) db.rows),
)
