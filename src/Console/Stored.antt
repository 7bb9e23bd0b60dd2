-- ===== src/Console/Stored.antt =====
-- What the file operations of the console do on a file system that takes what it is given.
use zephyr_zyx_modem.Base.{
  take_whole, ℕ, ◌≡◌, ◌∙◌, refl, ap, subst, sym, Bool, false, some, List, [], ◌∷◌, ◌++◌, length,
  take, ==_refl, if◌then◌else◌, ltb, add_size, ℤ, pos, negsuc,
}
use zephyr_zyx_modem.Console.{Settings}
use zephyr_zyx_modem.Console.Files.{
  FileSystem, Context, full_path, open_path, open_output_file, note_written, write_open_file,
  write_file_data, close_open_file, close_file,
}

-- The file does not exist, opens, and every write of it takes the whole buffer; the writes are not
-- handed to a work queue, which copies 1024 bytes at most.
pub record WillStore (fs : FileSystem) (settings : Settings) (name : List ℕ) : Type 0 where
  pub synchronous : settings.async_storage ≡ false
  pub is_new : fs.stat (full_path settings name) ≡ false
  pub opens : fs.open_for_writing (full_path settings name) ≡ pos 0
  pub writes : (past buf : List ℕ) → fs.write (full_path settings name) past buf ≡ pos (length buf)

-- A file is open and was given these bytes, and these files were closed before it.
pub record Stored (path written : List ℕ) (before : List (List ℕ × List ℕ)) (ctx : Context)
    : Type 0 where
  pub is_open : ctx.zfile ≡ some path
  pub holds : ctx.written ≡ written
  pub finished : ctx.closed ≡ before

module _ (fs : FileSystem) (settings : Settings) (name : List ℕ)
    (will : WillStore fs settings name) where
  pub write-whole :
      (buf : List ℕ) (ctx : Context)
      → ctx.zfile ≡ some (full_path settings name)
      → write_file_data fs settings buf ctx ≡ (
        pos 0,
        record ctx {
          bytes_transferred = add_size ctx.bytes_transferred (length buf);
          written = ctx.written ++ buf;
        },
      )
  unfolding write_open_file note_written
  write-whole buf ctx e =
      ap (λ z. write_open_file fs settings z buf ctx) e
      ∙ ap
          (λ (a : Bool).
            given_over
              (if a then take (if ltb 1024 (length buf) then 1024 else length buf) buf else buf))
          will.synchronous
      ∙ ap (λ r. note_written r buf buf ctx) (will.writes ctx.written buf)
      ∙ ap
          (λ (b : Bool). (
            if b then pos 0 else negsuc 0,
            record ctx {
              bytes_transferred = add_size ctx.bytes_transferred (length buf);
              written = ctx.written ++ take (length buf) buf;
            },
          ))
          (==_refl (length buf))
      ∙ ap
          (λ bs. (
            pos 0,
            record ctx {
              bytes_transferred = add_size ctx.bytes_transferred (length buf);
              written = ctx.written ++ bs;
            },
          ))
          (take_whole buf)
    where
      given_over : List ℕ → ℤ × Context
      given_over given =
          note_written (fs.write (full_path settings name) ctx.written given) buf given ctx

  pub write-Stored :
      (buf written : List ℕ) (before : List (List ℕ × List ℕ)) (ctx : Context)
      → Stored (full_path settings name) written before ctx
      → Stored
          (full_path settings name)
          (written ++ buf)
          before
          (write_file_data fs settings buf ctx).1
  write-Stored buf written before ctx is =
      subst (λ (r : ℤ × Context). Stored (full_path settings name) (written ++ buf) before r.1)
        (sym (write-whole buf ctx is.is_open))
        (record {
          is_open = is.is_open;
          holds = ap (λ w. w ++ buf) is.holds;
          finished = is.finished;
        })

  pub open-whole :
      (ctx : Context)
      → open_output_file fs settings name ctx
        ≡ (pos 0, record ctx { zfile = some (full_path settings name); written = [] })
  unfolding open_output_file open_path
  open-whole ctx = rw (will.is_new, will.opens) refl

-- Closing a file adds it to those that were closed before.
pub close-Stored :
    (path written : List ℕ) (before : List (List ℕ × List ℕ)) (ctx : Context)
    → Stored path written before ctx
    → (close_file ctx).closed ≡ before ++ ((path, written) ∷ [])
unfolding close_open_file
close-Stored path written before ctx is =
    ap (λ z. (close_open_file z ctx).closed) is.is_open
    ∙ ap (λ cs. cs ++ ((path, ctx.written) ∷ [])) is.finished
    ∙ ap (λ w. before ++ ((path, w) ∷ [])) is.holds
