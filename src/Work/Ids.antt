-- ===== src/Work/Ids.antt =====
-- Work item ids: `parse_work_item_id` of tools/clearwright_work.py, and the ids that the derivation
-- gives to items.
use clear_wright.Prelude.{
  String, suc, ◌-◌, ◌≡◌, refl, arith, ◌&&◌, Option, none, some, if◌then◌else◌, concat, starts_with,
  ends_with, take_text, drop_text, text_length, ends_with-concat, take-concat, length-concat,
}
use clear_wright.Identity.{work_item_id_for}
use clear_wright.Work.View.{Kind, packet, rfi, in_progress, message}

-- A kind, and the id of the message or the packet.
pub record Target : Type 0 where
  pub kind : Kind
  pub ref : String

abbrev pub packet_item_id : String → String
packet_item_id ref = concat "packet:" (concat ref ":cta")

abbrev pub rfi_item_id : String → String
rfi_item_id ref = concat "rfi:" ref

abbrev pub in_progress_item_id : String → String
in_progress_item_id ref = concat "in_progress:" ref

-- The id that the derivation gives to an item of this kind.
unfoldable pub item_id : Kind → String → String
item_id message ref = work_item_id_for ref
item_id packet ref = packet_item_id ref
item_id in_progress ref = in_progress_item_id ref
item_id rfi ref = rfi_item_id ref

unfoldable pub parse_work_item_id : String → Option Target
parse_work_item_id wid =
    if starts_with "message:" wid
    then some (record { kind = message; ref = drop_text 8 wid })
    else if starts_with "packet:" wid && ends_with ":cta" wid
    then some (record { kind = packet; ref = drop_text 7 (take_text (text_length wid - 4) wid) })
    else if starts_with "in_progress:" wid
    then some (record { kind = in_progress; ref = drop_text 12 wid })
    else if starts_with "rfi:" wid
    then some (record { kind = rfi; ref = drop_text 4 wid })
    else none

parse_packet :
    (ref : String)
    → parse_work_item_id (packet_item_id ref) ≡ some (record { kind = packet; ref = ref })
unfolding parse_work_item_id
parse_packet ref =
    let end : text_length (packet_item_id ref) - 4
        ≡ suc (suc (suc (suc (suc (suc (suc (text_length ref))))))) =
      omega (arith, length-concat ref ":cta") in
    rw (ends_with-concat ref ":cta", end, take-concat ref ":cta" (text_length ref) refl)
      (ground arith)

-- The id that the derivation gives to an item is parsed to what it was made of.
pub parse_work_item_id-item_id :
    (k : Kind) (ref : String)
    → parse_work_item_id (item_id k ref) ≡ some (record { kind = k; ref = ref })
unfolding item_id work_item_id_for parse_work_item_id
parse_work_item_id-item_id message ref = refl
parse_work_item_id-item_id packet ref = parse_packet ref
parse_work_item_id-item_id in_progress ref = refl
parse_work_item_id-item_id rfi ref = refl
