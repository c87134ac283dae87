-- ===== src/Models/Config.antt =====
-- src/models/qwen3_config.h: what the loading of weights reads of a configuration. The numbers are not
-- negative.
use vicold_hybrid_ai.Base.{ℕ, List}

pub data Qwen3LayerType : Type 0 where
  linear_attention full_attention : Qwen3LayerType

pub record Qwen3Config : Type 0 where
  pub num_hidden_layers : ℕ
  pub layer_types : List Qwen3LayerType
  pub mtp_num_hidden_layers : ℕ
