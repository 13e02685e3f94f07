-- ===== src/PendingMedia/Examples.antt =====
-- The theorem on the gallery at three photos that arrive in the wrong order, one of them attached.
use shopify_vitrina.Base.{ℕ, false, ◌≡◌, refl, some, none, List, [], ◌∷◌, map, any, Text, str, ◌==◌}
use shopify_vitrina.PendingMedia.{
  PhotoInput, list_pending_media, add_pending_media, mark_attached, delete_stale_pending_media,
  in_order, insert_photo,
}
use shopify_vitrina.PendingMedia.Order.{Arranged}
use shopify_vitrina.PendingMedia.Calls.{Call, add, attach, sweep, step, run, no_photos}
use shopify_vitrina.PendingMedia.Gallery.{is_photo, waits, run-list_pending_media}

abbrev ana : Text
ana = str "573001"

abbrev photo : Text → ℕ → PhotoInput
photo path sent_at = record {
  phone = ana;
  file_path = path;
  public_path = path;
  caption = none;
  sent_at = some sent_at;
}

abbrev calls : List Call
calls =
    add 100 (photo (str "b.jpg") 60)
    ∷ add 101 (photo (str "a.jpg") 50)
    ∷ add 102 (photo (str "c.jpg") 70)
    ∷ attach 110 (3 ∷ []) (str "gid1")
    ∷ sweep 200 24
    ∷ []

gallery :
    map (λ p. p.file_path) (list_pending_media (run no_photos calls) ana)
    ≡ str "a.jpg" ∷ str "b.jpg" ∷ []
unfolding list_pending_media add_pending_media mark_attached delete_stale_pending_media in_order
    insert_photo step run ◌==◌
gallery = refl

run-list_pending_media_example :
    Arranged (list_pending_media (run no_photos calls) ana)
    × (any (is_photo 2 101) (list_pending_media (run no_photos calls) ana)
        ≡ waits ana 2 101 1 false calls)
run-list_pending_media_example = run-list_pending_media ana 2 101 calls
