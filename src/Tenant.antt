-- ===== src/Tenant.antt =====
-- `src/tenant.rs`: the listing of the tenants.
use Prim.Native.String.{String}
use rociadb_core_sdk_rust.Prelude.{ℕ, Option, List, Result, Action}
use rociadb_core_sdk_rust.Error.{Error}
use rociadb_core_sdk_rust.Client.{RociaDbClient, Page, PageRequest}
use rociadb_core_sdk_rust.Client.Service.{Rpc, PageResponse, list_page}

pub record ListTenantsRequest : Type 0 where
  pub page : Option PageRequest

pub record ListTenantsResponse : Type 0 where
  pub tenant_ids : List String
  pub page : Option PageResponse

module _ {W : Type 0} (client : RociaDbClient W) where
  unfoldable pub list_tenants :
      Rpc W ListTenantsRequest ListTenantsResponse
      → Option ℕ
      → Option String
      → Action W (Result Error (Page String))
  list_tenants rpc limit cursor =
      list_page client "failed to list tenants" rpc (λ page. record { page = page })
        (λ response. response.tenant_ids) (λ response. response.page) limit cursor
