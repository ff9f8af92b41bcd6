-- ===== src/ReadingPosition/Resolve.antt =====
-- Choosing between the stored position and a device's own.
use foreignreader_be.Base.{
  ℕ, ◌≤◌, ◌<◌, ◌≡◌, refl, true, false, Option, none, some, arith, trim_space,
}
use foreignreader_be.Schema.{Position}
use foreignreader_be.Db.{World, query}
use foreignreader_be.Http.{success}
use foreignreader_be.ReadingPosition.{
  LocalPosition, ResolveResult, use_local, use_remote, latest_position, resolve_position, decide,
}
use foreignreader_be.ReadingPosition.Routes.{
  ResolveRequest, handle_reading_position_resolve, to_local, rejects_local,
}
use foreignreader_be.ReadingPosition.Sync.{latest}

-- The answer to a device: without a local position it uses the stored one, if there is one; with a
-- local position it keeps that exactly if nothing stored is newer.
abbrev pub Resolved : Option LocalPosition → Option Position → ResolveResult → Type 0
Resolved none none res = res ≡ use_local
Resolved none (some p) res = res ≡ use_remote p
Resolved (some l) none res = res ≡ use_local
Resolved (some l) (some p) res =
    (p.updated_at ≤ l.updated_at → res ≡ use_local)
    × (l.updated_at < p.updated_at → res ≡ use_remote p)

decide-Resolved :
    (l : Option LocalPosition) (o : Option Position)
    → rejects_local l ≡ false
    → Resolved l o (decide (to_local l) o)
decide-Resolved none none h = refl
decide-Resolved none (some p) h = refl
decide-Resolved (some l) none h = refl
decide-Resolved (some l) (some p) h = (λ le. ground arith, λ lt. ground arith)

handled_resolve-ok :
    (user : ℕ) (req : ResolveRequest) (w : World) {res : ResolveResult}
    → (handle_reading_position_resolve (some user) true (some req) w).0 ≡ success res
    → (rejects_local req.local_position ≡ false)
      × (decide
            (to_local req.local_position)
            (latest user (trim_space req.book_fingerprint) w.tables)
          ≡ res)
unfolding handle_reading_position_resolve resolve_position latest_position query
handled_resolve-ok user req w {res} h = (ground arith, ground arith)

-- A resolve request that is answered without an error gets the stored position of the user in the
-- book, if there is one and it is newer than the local position or there is no local one; otherwise
-- the local one is to be used.
pub handle_reading_position_resolve-Resolved :
    (user : ℕ) (req : ResolveRequest) (w : World) {res : ResolveResult}
    → (handle_reading_position_resolve (some user) true (some req) w).0 ≡ success res
    → Resolved req.local_position (latest user (trim_space req.book_fingerprint) w.tables) res
handle_reading_position_resolve-Resolved user req w {res} h =
    let (accepted, decided) = handled_resolve-ok user req w h in
    rw (← decided) (decide-Resolved req.local_position _ accepted)
