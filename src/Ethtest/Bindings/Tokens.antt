-- ===== src/Ethtest/Bindings/Tokens.antt =====
-- The token methods, which seven of the contracts have: those of one contract can be called through
-- the interface of another.
use ethier.Common.{◌≡◌, refl, Bytes, Outcome}
use ethier.Ethtest.Errors.{TestError}
use ethier.Ethtest.Bindings.{BindPackage}
use ethier.Ethtest.Bindings.Methods.{Reader, Payer}
use ethier.Ethtest.Bindings.ChainlinkAbi.Erc20
use ethier.Ethtest.Bindings.ChainlinkAbi.IErc20
use ethier.Ethtest.Bindings.ChainlinkAbi.IErc20Metadata
use ethier.Ethtest.Bindings.ChainlinkAbi.LinkTokenInterface
use ethier.Ethtest.Bindings.ChainlinkAbi.SimulatedLinkToken
use ethier.Ethtest.Bindings.WethAbi.IwEth
use ethier.Ethtest.Bindings.WethAbi.Weth9

pub record TokenApi (Backend Signer Abi Tx : Type 0) : Type 0 where
  pub allowance : Reader Abi Signer → Bytes → Bytes → Backend → Outcome TestError Bytes
  pub balance_of : Reader Abi Signer → Bytes → Backend → Outcome TestError Bytes
  pub total_supply : Reader Abi Signer → Backend → Outcome TestError Bytes
  pub approve : Payer Abi Signer → Bytes → Bytes → Backend → Outcome TestError Tx × Backend
  pub transfer : Payer Abi Signer → Bytes → Bytes → Backend → Outcome TestError Tx × Backend
  pub transfer_from :
      Payer Abi Signer → Bytes → Bytes → Bytes → Backend → Outcome TestError Tx × Backend

module _ {Backend Signer Abi Tx : Type 0} (bind : BindPackage Backend Signer Abi Tx) where
  unfoldable erc20_methods : TokenApi Backend Signer Abi Tx
  erc20_methods = record {
    allowance = Erc20.allowance bind;
    balance_of = Erc20.balance_of bind;
    total_supply = Erc20.total_supply bind;
    approve = Erc20.approve bind;
    transfer = Erc20.transfer bind;
    transfer_from = Erc20.transfer_from bind;
  }

  unfoldable ierc20_methods : TokenApi Backend Signer Abi Tx
  ierc20_methods = record {
    allowance = IErc20.allowance bind;
    balance_of = IErc20.balance_of bind;
    total_supply = IErc20.total_supply bind;
    approve = IErc20.approve bind;
    transfer = IErc20.transfer bind;
    transfer_from = IErc20.transfer_from bind;
  }

  unfoldable ierc20_metadata_methods : TokenApi Backend Signer Abi Tx
  ierc20_metadata_methods = record {
    allowance = IErc20Metadata.allowance bind;
    balance_of = IErc20Metadata.balance_of bind;
    total_supply = IErc20Metadata.total_supply bind;
    approve = IErc20Metadata.approve bind;
    transfer = IErc20Metadata.transfer bind;
    transfer_from = IErc20Metadata.transfer_from bind;
  }

  unfoldable link_token_interface_methods : TokenApi Backend Signer Abi Tx
  link_token_interface_methods = record {
    allowance = LinkTokenInterface.allowance bind;
    balance_of = LinkTokenInterface.balance_of bind;
    total_supply = LinkTokenInterface.total_supply bind;
    approve = LinkTokenInterface.approve bind;
    transfer = LinkTokenInterface.transfer bind;
    transfer_from = LinkTokenInterface.transfer_from bind;
  }

  unfoldable simulated_link_token_methods : TokenApi Backend Signer Abi Tx
  simulated_link_token_methods = record {
    allowance = SimulatedLinkToken.allowance bind;
    balance_of = SimulatedLinkToken.balance_of bind;
    total_supply = SimulatedLinkToken.total_supply bind;
    approve = SimulatedLinkToken.approve bind;
    transfer = SimulatedLinkToken.transfer bind;
    transfer_from = SimulatedLinkToken.transfer_from bind;
  }

  unfoldable iweth_methods : TokenApi Backend Signer Abi Tx
  iweth_methods = record {
    allowance = IwEth.allowance bind;
    balance_of = IwEth.balance_of bind;
    total_supply = IwEth.total_supply bind;
    approve = IwEth.approve bind;
    transfer = IwEth.transfer bind;
    transfer_from = IwEth.transfer_from bind;
  }

  unfoldable weth9_methods : TokenApi Backend Signer Abi Tx
  weth9_methods = record {
    allowance = Weth9.allowance bind;
    balance_of = Weth9.balance_of bind;
    total_supply = Weth9.total_supply bind;
    approve = Weth9.approve bind;
    transfer = Weth9.transfer bind;
    transfer_from = Weth9.transfer_from bind;
  }

  -- Every one of them sends what IERC20 sends.
  methods_agree :
      (erc20_methods ≡ ierc20_methods)
      × (ierc20_metadata_methods ≡ ierc20_methods)
      × (link_token_interface_methods ≡ ierc20_methods)
      × (simulated_link_token_methods ≡ ierc20_methods)
      × (iweth_methods ≡ ierc20_methods)
      × (weth9_methods ≡ ierc20_methods)
  unfolding erc20_methods ierc20_methods ierc20_metadata_methods link_token_interface_methods
      simulated_link_token_methods iweth_methods weth9_methods Erc20.allowance Erc20.balance_of
      Erc20.total_supply Erc20.approve Erc20.transfer Erc20.transfer_from IErc20.allowance
      IErc20.balance_of IErc20.total_supply IErc20.approve IErc20.transfer IErc20.transfer_from
      IErc20Metadata.allowance IErc20Metadata.balance_of IErc20Metadata.total_supply
      IErc20Metadata.approve IErc20Metadata.transfer IErc20Metadata.transfer_from
      LinkTokenInterface.allowance LinkTokenInterface.balance_of LinkTokenInterface.total_supply
      LinkTokenInterface.approve LinkTokenInterface.transfer LinkTokenInterface.transfer_from
      SimulatedLinkToken.allowance SimulatedLinkToken.balance_of SimulatedLinkToken.total_supply
      SimulatedLinkToken.approve SimulatedLinkToken.transfer SimulatedLinkToken.transfer_from
      IwEth.allowance IwEth.balance_of IwEth.total_supply IwEth.approve IwEth.transfer
      IwEth.transfer_from Weth9.allowance Weth9.balance_of Weth9.total_supply Weth9.approve
      Weth9.transfer Weth9.transfer_from
  methods_agree = (refl, refl, refl, refl, refl, refl)
