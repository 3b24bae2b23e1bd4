-- ===== src/EndToEnd/NotifyTests.antt =====
-- A saved limit is published to a subscriber, and payloads that are refused.
use knobs.Base.{◌≡◌, refl, ℕ, String, String_eq, ℕ_eq, true, Option, none, some, [], ◌∷◌, arith}
use knobs.Base.Text.{Text, codes, has}
use knobs.Assoc.{GoMap, made, lookup}
use knobs.Store.{next_version_number, max_version}
use knobs.Delivery.Snapshot.{Snapshot, build_snapshot}
use knobs.Delivery.Hub.Run.{new_hub}
use knobs.Delivery.Hub.{Hub, subscribe, publish}
use knobs.Delivery.Listener.{
  parse_payload, cut_colon, is_int64, digits_from, digits, payload, on_notification,
}
use knobs.Api.Values.{handle_put_values}
use knobs.Api.Values.Grows.{revision_at}
use knobs.Api.ValuesSample.{rules, tables, prod, access}
use knobs.EndToEnd.Notify.{put_values-on_notification}

abbrev print_number : ℕ → Text
print_number n = digits n n

abbrev parse_number : Text → Option ℕ
parse_number s = digits_from 0 s

no_colon : parse_payload parse_number (codes "17") ≡ none
unfolding parse_payload cut_colon
no_colon = refl

no_revision : parse_payload parse_number (codes "17:x") ≡ none
unfolding parse_payload cut_colon is_int64 digits_from
no_revision = refl

signed_revision : parse_payload parse_number (codes "17:-5") ≡ some 17
unfolding parse_payload cut_colon is_int64 digits_from
signed_revision = refl

abbrev seven : GoMap ℕ
seven = made (("limit", 7) ∷ [])

abbrev no_rules : GoMap ℕ
no_rules = made []

abbrev one_subscriber : Hub (Snapshot ℕ ℕ)
one_subscriber = subscribe new_hub 0

abbrev hash_of : ℕ → String
hash_of s = "h"

put_values-on_notification_example :
    (let after = (handle_put_values rules tables 7 true (some 0) (some (seven, no_rules))).0 in
      (after.notified ≡ (0, 3) ∷ [])
      × ((hash : String) × ((on_notification 100 hash_of parse_number after one_subscriber
              (payload print_number 0 3)).1
            ≡ publish one_subscriber 0 (build_snapshot 3 seven no_rules hash 3))))
unfolding digits digits_from has revision_at lookup next_version_number max_version
put_values-on_notification_example =
    put_values-on_notification rules hash_of print_number parse_number tables 7 0 prod seven
      no_rules one_subscriber refl refl (omega arith) access refl refl refl
