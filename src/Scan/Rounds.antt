-- ===== src/Scan/Rounds.antt =====
-- The rounds of the loop in `scan_work` of src/scan.c are enough for all records.
use u.Common.{◌*◌, ◌≤◌, ◌≡◌, ap, List, [], ◌∷◌, length, length-append, arith}
use u.Ringbuffer.{Ringbuffer}
use u.Ringbuffer.Refine.{IsValid, queue, data_count-queue}
use u.Scan.Session.{take_records, beacon_bytes, rsn_bytes}
use u.Scan.Records.{beacon_bytes-length}
use u.Scan.Queue.{
  StoredRecord, AllStored, records_bytes, record_bytes, read_all, take_records_refines,
}
use u.Scan.Run.{buffer_size, record_rounds}

records_bytes-length :
    (xs : List StoredRecord) → AllStored xs → length xs * 80 ≤ length (records_bytes xs)
records_bytes-length [] v = omega arith
records_bytes-length (x ∷ xs) v = omega (
  arith,
  records_bytes-length xs v.1,
  length-append (record_bytes x) (records_bytes xs),
  length-append (beacon_bytes x.filler x.beacon) (rsn_bytes x.beacon),
  beacon_bytes-length x.filler v.0.filler_size x.beacon v.0.beacon_IsValid,
)

-- The rounds that the loop of the scan work has take out all records of a valid ring that is no
-- larger than the scan's, in their order, each with all its fields and the RSN element that was
-- stored, if it has any bytes, and leave the ring empty.
pub take_records-record_rounds :
    (r : Ringbuffer) (stored : List StoredRecord)
    → IsValid r
    → r.size ≤ buffer_size
    → AllStored stored
    → queue r ≡ records_bytes stored
    → (r' : Ringbuffer) × (take_records record_rounds r ≡ (read_all stored, r'))
      × IsValid r'
      × (queue r' ≡ [])
take_records-record_rounds r stored v small w e =
    take_records_refines record_rounds r stored v w e (
      omega (
        arith,
        records_bytes-length stored w,
        ap length e,
        data_count-queue v,
        v.bounded,
        v.ordered,
        v.write_fits,
      ))
