-- ===== src/Am.antt =====
-- abstract-machine/am/src: the layer below the programs.
pub mod Vme
