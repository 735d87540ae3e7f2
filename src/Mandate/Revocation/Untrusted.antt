-- ===== src/Mandate/Revocation/Untrusted.antt =====
-- A revocation store denies while it cannot trust what the operator published.
use cortxt.Prelude.{ℕ, ◌≡◌, true, false, none, some, arith}
use cortxt.Platform.{Platform, Time}
use cortxt.Mandate.Revocation.{
  Entries, retains, Config, Store, Snapshot, install, reload, refresh, answer, is_revoked, Query,
  ask, same_metadata, validated, rolls_back, too_soon,
}

module _ (p : Platform) where
  -- The file is not the one that was installed last, and it cannot be read, is not valid, rolls
  -- the generation back, or drops or changes a revocation.
  pub data IsUntrusted (file : Snapshot p.Float) (s : Store) : Type 0 where
    gone : file.stat ≡ none → IsUntrusted file s
    invalid_content :
        (m : ℕ × ℕ)
        → file.stat ≡ some m
        → same_metadata p s.metadata m ≡ false
        → validated p file.content ≡ none
        → IsUntrusted file s
    rolled_back :
        (m : ℕ × ℕ) (g : ℕ) (entries : Entries)
        → file.stat ≡ some m
        → same_metadata p s.metadata m ≡ false
        → validated p file.content ≡ some (g, entries)
        → rolls_back p s.generation g ≡ true
        → IsUntrusted file s
    removed :
        (m : ℕ × ℕ) (g : ℕ) (entries : Entries)
        → file.stat ≡ some m
        → same_metadata p s.metadata m ≡ false
        → validated p file.content ≡ some (g, entries)
        → retains s.entries entries ≡ false
        → IsUntrusted file s

  reload_untrusted :
      (now : Time) (file : Snapshot p.Float) (s : Store)
      → IsUntrusted file s
      → reload p false now file s ≡ record s { invalid_newer = true }
  unfolding reload install
  reload_untrusted now file s (gone e) = ground arith
  reload_untrusted now file s (invalid_content m e d v) = ground arith
  reload_untrusted now file s (rolled_back m g entries e d v b) = ground arith
  reload_untrusted now file s (removed m g entries e d v b) = ground arith

  IsUntrusted-checked :
      (now : Time) (file : Snapshot p.Float) (s : Store)
      → IsUntrusted file s
      → IsUntrusted file (record s { last_check_at = some now })
  IsUntrusted-checked now file s (gone e) = gone e
  IsUntrusted-checked now file s (invalid_content m e d v) = invalid_content m e d v
  IsUntrusted-checked now file s (rolled_back m g entries e d v b) = rolled_back m g entries e d v b
  IsUntrusted-checked now file s (removed m g entries e d v b) = removed m g entries e d v b

  -- Where a check is due and the file is not to be trusted, every key is answered as revoked, and
  -- the entries and the generation stay those of the last valid snapshot.
  pub untrusted_denies :
      (config : Config) (q : Query p) (s : Store)
      → too_soon p config q.refreshed s.last_check_at ≡ false
      → IsUntrusted q.file s
      → ((ask p config q s).0 ≡ true)
        × ((ask p config q s).1.entries ≡ s.entries)
        × ((ask p config q s).1.generation ≡ s.generation)
  unfolding is_revoked refresh answer
  untrusted_denies config q s due u = ground (
    arith,
    reload_untrusted q.refreshed q.file (record s { last_check_at = some q.refreshed })
        (IsUntrusted-checked q.refreshed q.file s u),
  )
