-- ===== src/WasmApp.antt =====
-- The run time of a client application (yarte_wasm_app).
pub mod Queue
pub mod App
