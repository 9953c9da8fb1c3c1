-- ===== src/Operations/Cancel/Laws.antt =====
-- A delivered request reaches the command, however the calls interleave.
use resonantia.Prelude.{
  ◌∙◌, ℕ, Bool, true, false, List, Bytes, codes, ◌==◌, ◌≡◌, ◌⊎◌, inl, inr, refl, Bool-cases, arith,
  ◌≢◌,
}
use resonantia.Outcome.{Outcome, found, refused, spent}
use resonantia.System.{Attempt, retry}
use resonantia.Operations.Cancel.{
  cancelled, CancelDelivery, delivered, closed, failed, Reader, decision, poll, Source, written,
  request, close, Channel, Call, requesting, closing, polling, Calls, here, then_,
}

-- The file holds a zero or a one, and a one where the source remembers a request.
pub record IsValid (s : Source) (file : Bytes) : Type 0 where
  pub flag : (file ≡ codes "0") ⊎ (file ≡ codes "1")
  pub kept : s.requested ≡ true → file ≡ codes "1"

-- What a request leaves: a valid file, a one that stays, and a one where it is delivered.
record Requested (file : Bytes) (r : CancelDelivery × Source × Bytes) : Type 0 where
  valid : IsValid r.1 r.2
  stays : file ≡ codes "1" → r.2 ≡ codes "1"
  told : r.0 ≡ delivered → r.2 ≡ codes "1"

written-Requested :
    (s : Source) (file : Bytes) (b : Bool) → IsValid s file → Requested file (written s file b)
written-Requested s file true v = record {
  valid = record { flag = inr refl; kept = λ _. refl };
  stays = λ _. refl;
  told = λ _. refl;
}
written-Requested s file false v = record {
  valid = record { flag = v.flag; kept = v.kept };
  stays = λ e. e;
  told = λ e. cc;
}

request-Requested :
    (pwrite : List (Attempt ℕ)) (s : Source) (file : Bytes) {r : CancelDelivery × Source × Bytes}
    → IsValid s file
    → request pwrite s file ≡ found r
    → Requested file r
unfolding request
request-Requested pwrite s file {r} v h = elim (Bool-cases s.broken) [
  | inl broken ↦
      let same : (failed, s, file) ≡ r = cc (rw broken at h) in
      rw (← same) (record { valid = v; stays = λ e. e; told = λ e. cc })
  | inr sound ↦
      let h1 = rw sound at h in
      elim (Bool-cases s.has_fd) [
        | inr no_fd ↦
            let same : (closed, s, file) ≡ r = cc (rw no_fd at h1) in
            rw (← same) (record { valid = v; stays = λ e. e; told = λ e. cc })
        | inl fd ↦
            let h2 = rw fd at h1 in
            elim (Bool-cases s.requested) [
              | inl before ↦
                  let same : (delivered, s, file) ≡ r = cc (rw before at h2) in
                  rw (← same) (record { valid = v; stays = λ e. e; told = λ _. v.kept before })
              | inr first ↦ answered (retry pwrite) (rw first at h2)
            ]
      ]
]
  where
    answered :
        (o : Outcome ℕ)
        → elim o [
          | found count ↦ found (written s file (count == 1))
          | refused ↦ found (written s file false)
          | spent ↦ spent
        ]
          ≡ found r
        → Requested file r
    answered (found count) k =
        let same : written s file (count == 1) ≡ r = cc k in
        rw (← same) (written-Requested s file (count == 1) v)
    answered refused k =
        let same : written s file false ≡ r = cc k in rw (← same) (written-Requested s file false v)
    answered spent k = cc

Call-IsValid : {c d : Channel} → Call c d → IsValid c.source c.file → IsValid d.source d.file
unfolding close
Call-IsValid (requesting c pwrite t s file e) v =
    (request-Requested pwrite c.source c.file v e).valid
Call-IsValid (closing c b) v = record { flag = v.flag; kept = v.kept }
Call-IsValid (polling c pread t r e) v = v

Call-stays :
    {c d : Channel} → Call c d → IsValid c.source c.file → c.file ≡ codes "1" → d.file ≡ codes "1"
Call-stays (requesting c pwrite t s file e) v h =
    (request-Requested pwrite c.source c.file v e).stays h
Call-stays (closing c b) v h = h
Call-stays (polling c pread t r e) v h = h

Calls-stays :
    {c d : Channel}
    → Calls c d
    → IsValid c.source c.file
    → c.file ≡ codes "1"
    → IsValid d.source d.file × (d.file ≡ codes "1")
Calls-stays here v h = (v, h)
Calls-stays (then_ cs call) v h =
    let (v', h') = Calls-stays cs v h in (Call-IsValid call v', Call-stays call v' h')

poll-cancelled :
    (pread : List (Attempt Bytes)) (r : Reader)
    → r.broken ≡ false
    → r.has_fd ≡ true
    → retry pread ≡ found (codes "1")
    → poll pread r ≡ found (cancelled, r)
unfolding poll decision
poll-cancelled pread r sound fd e = ground (arith, sound, fd, e)

-- Once a request on a valid channel has been answered with `delivered`, a poll by a reader without an
-- error that reads the file answers `cancelled`, whatever calls come between.
pub request-poll :
    (c d : Channel) (pwrite : List (Attempt ℕ)) (pread : List (Attempt Bytes)) {s : Source}
    {file : Bytes}
    → IsValid c.source c.file
    → request pwrite c.source c.file ≡ found (delivered, s, file)
    → Calls (record c { source = s; file = file }) d
    → d.reader.broken ≡ false
    → d.reader.has_fd ≡ true
    → retry pread ≡ found d.file
    → poll pread d.reader ≡ found (cancelled, d.reader)
request-poll c d pwrite pread v e calls sound fd reads =
    let asked = request-Requested pwrite c.source c.file v e in
    let (_, one) = Calls-stays calls asked.valid (asked.told refl) in
    poll-cancelled pread d.reader sound fd (rw one at reads)

request_closed :
    (pwrite : List (Attempt ℕ)) (s : Source) (file : Bytes) {r : CancelDelivery × Source × Bytes}
    → s.has_fd ≡ false
    → request pwrite s file ≡ found r
    → (r.2 ≡ file) × (r.1 ≡ s) × (r.0 ≢ delivered)
unfolding request
request_closed pwrite s file {r} no_fd h = elim (Bool-cases s.broken) [
  | inl broken ↦
      let same : (failed, s, file) ≡ r = cc (rw broken at h) in rw (← same) (refl, refl, λ e. cc)
  | inr sound ↦
      let h1 = rw sound at h in
      let same : (closed, s, file) ≡ r = cc (rw no_fd at h1) in rw (← same) (refl, refl, λ e. cc)
]

Call-closed :
    {c d : Channel}
    → Call c d
    → c.source.has_fd ≡ false
    → (d.source.has_fd ≡ false) × (d.file ≡ c.file)
unfolding close
Call-closed (requesting c pwrite t s file e) h =
    let (same_file, same, _) = request_closed pwrite c.source c.file h e in (rw same h, same_file)
Call-closed (closing c b) h = (refl, refl)
Call-closed (polling c pread t r e) h = (h, refl)

Calls-closed :
    {c d : Channel}
    → Calls c d
    → c.source.has_fd ≡ false
    → (d.source.has_fd ≡ false) × (d.file ≡ c.file)
Calls-closed here h = (h, refl)
Calls-closed (then_ cs call) h =
    let (h', same) = Calls-closed cs h in
    let (h'', same') = Call-closed call h' in (h'', same' ∙ same)

-- Behind a close no call writes the file, and no request is answered with `delivered`.
pub close-request :
    (c d : Channel) (close_result : Bool) (pwrite : List (Attempt ℕ))
    {r : CancelDelivery × Source × Bytes}
    → Calls (record c { source = (close close_result c.source).1 }) d
    → request pwrite d.source d.file ≡ found r
    → (r.2 ≡ c.file) × (r.0 ≢ delivered)
unfolding close
close-request c d close_result pwrite calls e =
    let (no_fd, same) = Calls-closed calls refl in
    let (same_file, _, not_delivered) = request_closed pwrite d.source d.file no_fd e in
    (same_file ∙ same, not_delivered)
