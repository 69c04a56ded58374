-- ===== src/Root/Heartbeats.antt =====
-- What the answers to the heartbeats of src/server/src/root/heartbeat.rs do to the table of groups.
use engula.HashMap
use engula.HashMap.{pair_beq, pair_beq_iff, nat_key, pair_key, Map}
use engula.Prelude.{find, ◌<◌, List, [], false, leb, ◌∷◌, ap, arith, some, sym, ℕ, ◌==◌, ◌∙◌, ◌≡◌}
use engula.Root.{
  CollectGroupDetailResponse, detail_group, detail_groups, detail_replicas, handle_group_detail,
  Tables, get_group,
}
use engula.Meta.{GroupDesc}

newer_epoch : (a b : ℕ) → b < a → leb a b ≡ false
newer_epoch a b h = ground (arith, h)

abbrev pub detail_of : GroupDesc → CollectGroupDetailResponse
detail_of desc = record { replica_states = []; group_descs = desc ∷ [] }

detail_written :
    (listed : List GroupDesc) (desc ex : GroupDesc) (t : Tables)
    → find (λ g. g.id == desc.id) listed ≡ some ex
    → ex.epoch < desc.epoch
    → get_group desc.id (handle_group_detail listed (detail_of desc) t).0 ≡ some desc
unfolding handle_group_detail detail_groups detail_group detail_replicas
detail_written listed desc ex t known newer =
    rw (known, newer_epoch desc.epoch ex.epoch newer) (HashMap.put_in desc.id desc t.groups)

-- Where two nodes answer one heartbeat with descriptors of a group, both newer than the one that was
-- listed before, the first answer's descriptor is stored, and then it is replaced by the second
-- answer's, though that has a smaller epoch.
pub handle_group_detail-stale :
    (listed : List GroupDesc) (newer older ex : GroupDesc) (t : Tables)
    → newer.id ≡ older.id
    → find (λ g. g.id == older.id) listed ≡ some ex
    → ex.epoch < older.epoch
    → older.epoch < newer.epoch
    → (get_group older.id (handle_group_detail listed (detail_of newer) t).0 ≡ some newer)
      × (get_group older.id
            (handle_group_detail listed
              (detail_of older)
              (handle_group_detail listed (detail_of newer) t).0).0
          ≡ some older)
handle_group_detail-stale listed newer older ex t same known behind stale = (
  ap (λ i. get_group i (handle_group_detail listed (detail_of newer) t).0) (sym same)
      ∙ detail_written listed newer ex t (ap (λ i. find (λ g. g.id == i) listed) same ∙ known)
          (omega (arith, behind, stale)),
  detail_written listed older ex (handle_group_detail listed (detail_of newer) t).0 known behind,
)
