-- ===== src/Pinmux/Tables/I6e.antt =====
-- src/hal/sstar_reginfo.h: the registers of `I6E_regs`, in its order.
use ipctool.Base.{List, [], ◌∷◌, ◌++◌, ◌≡◌, refl, true}
use ipctool.Pinmux.Register.{Register, muxctrl, proper}

i6e_low : List Register
i6e_low =
    muxctrl 0x1F007E64 ("PAD_PM_UART_RX1" ∷ [])
    ∷ muxctrl 0x1F007E80 ("PAD_PM_UART_TX1" ∷ [])
    ∷ muxctrl 0x1F007E84 ("PAD_PM_UART_RX" ∷ [])
    ∷ muxctrl 0x1F007E88 ("PAD_PM_UART_TX" ∷ [])
    ∷ muxctrl 0x1F007E44 ("PAD_PM_I2CM_SCL" ∷ [])
    ∷ muxctrl 0x1F007E48 ("PAD_PM_I2CM_SDA" ∷ [])
    ∷ muxctrl 0x1F007E00 ("PAD_PM_GPIO0" ∷ [])
    ∷ muxctrl 0x1F007E04 ("PAD_PM_GPIO1" ∷ [])
    ∷ muxctrl 0x1F007E08 ("PAD_PM_GPIO2" ∷ [])
    ∷ muxctrl 0x1F007E0C ("PAD_PM_GPIO3" ∷ [])
    ∷ muxctrl 0x1F007E10 ("PAD_PM_GPIO4" ∷ [])
    ∷ muxctrl 0x1F007E14 ("PAD_PM_GPIO5" ∷ [])
    ∷ muxctrl 0x1F007E18 ("PAD_PM_GPIO6" ∷ [])
    ∷ muxctrl 0x1F007E1C ("PAD_PM_GPIO7" ∷ [])
    ∷ muxctrl 0x1F007E20 ("PAD_PM_GPIO8" ∷ [])
    ∷ muxctrl 0x1F007E24 ("PAD_PM_GPIO9" ∷ [])
    ∷ muxctrl 0x1F007E40 ("PAD_PM_GPIO10" ∷ [])
    ∷ muxctrl 0x1F007E4C ("PAD_PM_SPI_CZ" ∷ [])
    ∷ muxctrl 0x1F007E50 ("PAD_PM_SPI_CK" ∷ [])
    ∷ muxctrl 0x1F007E54 ("PAD_PM_SPI_DI" ∷ [])
    ∷ muxctrl 0x1F007E58 ("PAD_PM_SPI_DO" ∷ [])
    ∷ muxctrl 0x1F007E5C ("PAD_PM_SPI_WPZ" ∷ [])
    ∷ muxctrl 0x1F007E60 ("PAD_PM_SPI_HLD" ∷ [])
    ∷ muxctrl 0x1F002848 ("PAD_SAR_GPIO0" ∷ [])
    ∷ muxctrl 0x1F002848 ("PAD_SAR_GPIO1" ∷ [])
    ∷ muxctrl 0x1F002848 ("PAD_SAR_GPIO2" ∷ [])
    ∷ muxctrl 0x1F002848 ("PAD_SAR_GPIO3" ∷ [])
    ∷ muxctrl 0x1F002848 ("PAD_SAR_GPIO4" ∷ [])
    ∷ muxctrl 0x1F002848 ("PAD_SAR_GPIO5" ∷ [])
    ∷ muxctrl 0x1F207840 ("PAD_SD0_GPIO0" ∷ [])
    ∷ muxctrl 0x1F207844 ("PAD_SD0_CDZ" ∷ [])
    ∷ muxctrl 0x1F207848 ("PAD_SD0_D1" ∷ [])
    ∷ muxctrl 0x1F20784C ("PAD_SD0_D0" ∷ [])
    ∷ muxctrl 0x1F207850 ("PAD_SD0_CLK" ∷ [])
    ∷ muxctrl 0x1F207854 ("PAD_SD0_CMD" ∷ [])
    ∷ muxctrl 0x1F207858 ("PAD_SD0_D3" ∷ [])
    ∷ muxctrl 0x1F20785C ("PAD_SD0_D2" ∷ [])
    ∷ muxctrl 0x1F207860 ("PAD_I2S0_MCLK" ∷ [])
    ∷ muxctrl 0x1F207864 ("PAD_I2S0_BCK" ∷ [])
    ∷ muxctrl 0x1F207868 ("PAD_I2S0_WCK" ∷ [])
    ∷ muxctrl 0x1F20786C ("PAD_I2S0_DI" ∷ [])
    ∷ muxctrl 0x1F207870 ("PAD_I2S0_DO" ∷ [])
    ∷ muxctrl 0x1F207874 ("PAD_I2C0_SCL" ∷ [])
    ∷ muxctrl 0x1F207878 ("PAD_I2C0_SDA" ∷ [])
    ∷ muxctrl 0x1F207880 ("PAD_ETH_LED0" ∷ [])
    ∷ muxctrl 0x1F207884 ("PAD_ETH_LED1" ∷ [])
    ∷ muxctrl 0x1F207888 ("PAD_FUART_RX" ∷ [])
    ∷ muxctrl 0x1F20788C ("PAD_FUART_TX" ∷ [])
    ∷ muxctrl 0x1F207890 ("PAD_FUART_CTS" ∷ [])
    ∷ muxctrl 0x1F207894 ("PAD_FUART_RTS" ∷ [])
    ∷ muxctrl 0x1F207898 ("PAD_SD1_CDZ" ∷ [])
    ∷ muxctrl 0x1F20789C ("PAD_SD1_D1" ∷ [])
    ∷ muxctrl 0x1F2078A0 ("PAD_SD1_D0" ∷ [])
    ∷ muxctrl 0x1F2078A4 ("PAD_SD1_CLK" ∷ [])
    ∷ muxctrl 0x1F2078A8 ("PAD_SD1_CMD" ∷ [])
    ∷ muxctrl 0x1F2078AC ("PAD_SD1_D3" ∷ [])
    ∷ muxctrl 0x1F2078B0 ("PAD_SD1_D2" ∷ [])
    ∷ muxctrl 0x1F2078B4 ("PAD_SD1_GPIO0" ∷ [])
    ∷ muxctrl 0x1F2078B8 ("PAD_SD1_GPIO1" ∷ [])
    ∷ muxctrl 0x1F207800 ("PAD_GPIO0" ∷ [])
    ∷ muxctrl 0x1F207804 ("PAD_GPIO1" ∷ [])
    ∷ muxctrl 0x1F207808 ("PAD_GPIO2" ∷ [])
    ∷ muxctrl 0x1F20780C ("PAD_GPIO3" ∷ [])
    ∷ muxctrl 0x1F207810 ("PAD_GPIO4" ∷ [])
    ∷ []

i6e_high : List Register
i6e_high =
    muxctrl 0x1F207814 ("PAD_GPIO5" ∷ [])
    ∷ muxctrl 0x1F207818 ("PAD_GPIO6" ∷ [])
    ∷ muxctrl 0x1F20781C ("PAD_GPIO7" ∷ [])
    ∷ muxctrl 0x1F2078D8 ("PAD_SR0_IO00" ∷ [])
    ∷ muxctrl 0x1F2078DC ("PAD_SR0_IO01" ∷ [])
    ∷ muxctrl 0x1F2078E0 ("PAD_SR0_IO02" ∷ [])
    ∷ muxctrl 0x1F2078E4 ("PAD_SR0_IO03" ∷ [])
    ∷ muxctrl 0x1F2078E8 ("PAD_SR0_IO04" ∷ [])
    ∷ muxctrl 0x1F2078EC ("PAD_SR0_IO05" ∷ [])
    ∷ muxctrl 0x1F2078F0 ("PAD_SR0_IO06" ∷ [])
    ∷ muxctrl 0x1F2078F4 ("PAD_SR0_IO07" ∷ [])
    ∷ muxctrl 0x1F2078F8 ("PAD_SR0_IO08" ∷ [])
    ∷ muxctrl 0x1F2078FC ("PAD_SR0_IO09" ∷ [])
    ∷ muxctrl 0x1F207900 ("PAD_SR0_IO10" ∷ [])
    ∷ muxctrl 0x1F207904 ("PAD_SR0_IO11" ∷ [])
    ∷ muxctrl 0x1F207908 ("PAD_SR0_IO12" ∷ [])
    ∷ muxctrl 0x1F20790C ("PAD_SR0_IO13" ∷ [])
    ∷ muxctrl 0x1F207910 ("PAD_SR0_IO14" ∷ [])
    ∷ muxctrl 0x1F207914 ("PAD_SR0_IO15" ∷ [])
    ∷ muxctrl 0x1F207918 ("PAD_SR0_IO16" ∷ [])
    ∷ muxctrl 0x1F20791C ("PAD_SR0_IO17" ∷ [])
    ∷ muxctrl 0x1F207920 ("PAD_SR0_IO18" ∷ [])
    ∷ muxctrl 0x1F207924 ("PAD_SR0_IO19" ∷ [])
    ∷ muxctrl 0x1F207928 ("PAD_SR1_IO00" ∷ [])
    ∷ muxctrl 0x1F20792C ("PAD_SR1_IO01" ∷ [])
    ∷ muxctrl 0x1F207930 ("PAD_SR1_IO02" ∷ [])
    ∷ muxctrl 0x1F207934 ("PAD_SR1_IO03" ∷ [])
    ∷ muxctrl 0x1F207938 ("PAD_SR1_IO04" ∷ [])
    ∷ muxctrl 0x1F20793C ("PAD_SR1_IO05" ∷ [])
    ∷ muxctrl 0x1F207940 ("PAD_SR1_IO06" ∷ [])
    ∷ muxctrl 0x1F207944 ("PAD_SR1_IO07" ∷ [])
    ∷ muxctrl 0x1F207948 ("PAD_SR1_IO08" ∷ [])
    ∷ muxctrl 0x1F20794C ("PAD_SR1_IO09" ∷ [])
    ∷ muxctrl 0x1F207950 ("PAD_SR1_IO10" ∷ [])
    ∷ muxctrl 0x1F207954 ("PAD_SR1_IO11" ∷ [])
    ∷ muxctrl 0x1F207958 ("PAD_SR1_IO12" ∷ [])
    ∷ muxctrl 0x1F20795C ("PAD_SR1_IO13" ∷ [])
    ∷ muxctrl 0x1F207960 ("PAD_SR1_IO14" ∷ [])
    ∷ muxctrl 0x1F207964 ("PAD_SR1_IO15" ∷ [])
    ∷ muxctrl 0x1F207968 ("PAD_SR1_IO16" ∷ [])
    ∷ muxctrl 0x1F20796C ("PAD_SR1_IO17" ∷ [])
    ∷ muxctrl 0x1F207970 ("PAD_SR1_IO18" ∷ [])
    ∷ muxctrl 0x1F207974 ("PAD_SR1_IO19" ∷ [])
    ∷ muxctrl 0x1F207820 ("PAD_GPIO8" ∷ [])
    ∷ muxctrl 0x1F207824 ("PAD_GPIO9" ∷ [])
    ∷ muxctrl 0x1F207828 ("PAD_GPIO10" ∷ [])
    ∷ muxctrl 0x1F20782C ("PAD_GPIO11" ∷ [])
    ∷ muxctrl 0x1F207830 ("PAD_GPIO12" ∷ [])
    ∷ muxctrl 0x1F207834 ("PAD_GPIO13" ∷ [])
    ∷ muxctrl 0x1F207838 ("PAD_GPIO14" ∷ [])
    ∷ muxctrl 0x1F20783C ("PAD_GPIO15" ∷ [])
    ∷ muxctrl 0x1F2078C0 ("PAD_SPI_CZ" ∷ [])
    ∷ muxctrl 0x1F2078C4 ("PAD_SPI_CK" ∷ [])
    ∷ muxctrl 0x1F2078C8 ("PAD_SPI_DI" ∷ [])
    ∷ muxctrl 0x1F2078CC ("PAD_SPI_DO" ∷ [])
    ∷ muxctrl 0x1F2078D0 ("PAD_SPI_WPZ" ∷ [])
    ∷ muxctrl 0x1F2078D4 ("PAD_SPI_HLD" ∷ [])
    ∷ muxctrl 0x1F2A2DC8 ("PAD_ETH_RN" ∷ [])
    ∷ muxctrl 0x1F2A2DC8 ("PAD_ETH_RP" ∷ [])
    ∷ muxctrl 0x1F2A2DC8 ("PAD_ETH_TN" ∷ [])
    ∷ muxctrl 0x1F2A2DC8 ("PAD_ETH_TP" ∷ [])
    ∷ muxctrl 0x1F284214 ("PAD_USB2_DM" ∷ [])
    ∷ muxctrl 0x1F284214 ("PAD_USB2_DP" ∷ [])
    ∷ []

pub i6e_regs : List Register
unfolding i6e_low i6e_high
i6e_regs = i6e_low ++ i6e_high

pub i6e_regs-proper : proper i6e_regs ≡ true
unfolding i6e_regs proper
i6e_regs-proper = refl
