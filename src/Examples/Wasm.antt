-- ===== src/Examples/Wasm.antt =====
-- The theorem of `Tools.WasmExecutor.Sandbox` at a runtime whose modules print what they are given.
use ai_assistant.Prelude.{
  ℕ, suc, String, ◌≡◌, refl, true, false, [], ◌∷◌, some, Io, Result, ok, err, eqb, if◌then◌else◌,
}
use ai_assistant.Tools.WasmExecutor.{
  Confined, Wasmtime, Utf8, run, execute_sync, preopen, invoke, start_export, started, captured,
  confined,
}
use ai_assistant.Tools.WasmExecutor.Sandbox.{IsPermitted, run-Permitted}
use ai_assistant.Samples.{tool}

abbrev utf8 : Utf8
utf8 = record { as_bytes = λ s. b'3' ∷ []; from_utf8 = λ bytes. ok "3" }

abbrev wasmtime : Wasmtime ℕ ℕ Confined
wasmtime = record {
  preopened_dir = λ p w. (ok tt, suc w);
  set_fuel = λ n w. (ok tt, w);
  add_to_linker_sync = λ w. (ok tt, w);
  instantiate = λ box m w. (ok box, suc w);
  has_run = λ i w. (false, w);
  has_memory = λ i w. (false, w);
  has_alloc = λ i w. (false, w);
  call_alloc = λ i n w. (err "no alloc", w);
  write = λ i at bytes w. (err "no memory", w);
  call_run = λ i at n w. (err "no run", w);
  read = λ i at n w. (err "no memory", w);
  has_start = λ i w. (true, w);
  call_start = λ i w. (ok tt, suc w);
  stdout = λ i w. (i.stdin, w);
  under_timeout = λ secs act w. let (r, v) = act w in (some (ok r), v);
}

-- A runtime that refuses another limit of memories.
abbrev refusing : Confined → ℕ → Io ℕ (Result String Confined)
refusing box m w = if eqb box.memories 16 then (ok box, suc w) else (err "refused", w)

refusing-alike :
    (box : Confined) (m w : ℕ)
    → IsPermitted (tool "cat" []) 16 "/work" box
    → refusing box m w ≡ wasmtime.instantiate box m w
refusing-alike box m w h = rw h.memories refl

printed : (run wasmtime utf8 (λ causes. "trap") 7 (tool "cat" []) "{}" 16 "/work" 0).0 ≡ ok "3"
unfolding run execute_sync preopen invoke start_export started captured confined
printed = refl

run-Permitted_example :
    run
      (record wasmtime { instantiate = refusing })
      utf8
      (λ causes. "trap")
      7
      (tool "cat" [])
      "{}"
      16
      "/work"
      0
    ≡ run wasmtime utf8 (λ causes. "trap") 7 (tool "cat" []) "{}" 16 "/work" 0
run-Permitted_example =
    run-Permitted wasmtime utf8 (λ causes. "trap") refusing (tool "cat" []) 16 "/work"
      refusing-alike 7 "{}" 0
