-- ===== src/Pinmux/Tables/Cv300.antt =====
-- src/reginfo.c: the registers of `CV300regs`, in its order.
use ipctool.Base.{List, [], ◌∷◌, ◌≡◌, refl, true}
use ipctool.Pinmux.Register.{Register, muxctrl, proper}

pub cv300_regs : List Register
cv300_regs =
    muxctrl 0x12040000 ("GPIO1_7" ∷ "PWM3" ∷ "SVB_PWM" ∷ [])
    ∷ muxctrl 0x12040004 ("GPIO6_5" ∷ "PWM0" ∷ [])
    ∷ muxctrl 0x12040008 ("GPIO6_6" ∷ "PWM1" ∷ [])
    ∷ muxctrl 0x1204000C ("GPIO6_7" ∷ "PWM2" ∷ [])
    ∷ muxctrl 0x12040010 ("GPIO6_2" ∷ "UART0_RXD" ∷ [])
    ∷ muxctrl 0x12040014 ("GPIO6_3" ∷ "UART0_TXD" ∷ [])
    ∷ muxctrl 0x12040018 ("GPIO6_1" ∷ "SHUTTER_TRIG" ∷ [])
    ∷ muxctrl 0x1204001C ("GPIO6_0" ∷ "FLASH_TRIG" ∷ [])
    ∷ muxctrl 0x12040020 ("GPIO3_6" ∷ "I2C1_SDA" ∷ [])
    ∷ muxctrl 0x12040024 ("GPIO3_7" ∷ "I2C1_SCL" ∷ [])
    ∷ muxctrl 0x12040028 ("GPIO0_5" ∷ "SPI0_SDI" ∷ [])
    ∷ muxctrl 0x1204002C ("GPIO0_4" ∷ "SPI0_SDO" ∷ "SPI_3LINE_SDATA" ∷ "I2C0_SDA" ∷ [])
    ∷ muxctrl 0x12040030 ("GPIO8_3" ∷ "SPI0_SCLK" ∷ "SPI_3LINE_SCLK" ∷ "I2C0_SCL" ∷ [])
    ∷ muxctrl 0x12040034 ("GPIO0_6" ∷ "SPI0_CSN" ∷ "SPI_3LINE_CSN" ∷ [])
    ∷ muxctrl 0x12040038 ("GPIO0_7" ∷ "SENSOR_RSTN" ∷ [])
    ∷ muxctrl 0x1204003C ("GPIO6_4" ∷ "SENSOR_CLK" ∷ [])
    ∷ muxctrl 0x12040040
        ("GPIO1_0" ∷ "VI_DATA13" ∷ "VOU656_CLK" ∷ "LCD_CLK" ∷ "I2S_MCLK" ∷ "SDIO2_CCLK_OUT" ∷ [])
    ∷ muxctrl 0x12040044
        ("GPIO1_1" ∷ "VI_DATA10" ∷ "VOU656_DATA3" ∷ "LCD_DATA1" ∷ "I2S_SD_TX" ∷ "SDIO2_CDATA3" ∷ [])
    ∷ muxctrl 0x12040048 (
        "GPIO1_2" ∷ "VI_DATA12" ∷ "VOU656_DATA7" ∷ "LCD_DATA3" ∷ "I2S_BCLK_TX" ∷ "SDIO2_CDATA1"
        ∷ [])
    ∷ muxctrl 0x1204004C
        ("GPIO1_3" ∷ "VI_DATA11" ∷ "VOU656_DATA2" ∷ "LCD_DATA2" ∷ "I2S_WS_TX" ∷ "SDIO2_CDATA2" ∷ [])
    ∷ muxctrl 0x12040050 ("GPIO1_4" ∷ "VI_DATA9" ∷ "VOU656_DATA6" ∷ "LCD_DATA4" ∷ [])
    ∷ muxctrl 0x12040054
        ("GPIO1_5" ∷ "VI_DATA14" ∷ "VOU656_DATA5" ∷ "LCD_DATA5" ∷ "reserved" ∷ "SDIO2_CDATA0" ∷ [])
    ∷ muxctrl 0x12040058
        ("GPIO1_6" ∷ "VI_DATA15" ∷ "VOU656_DATA4" ∷ "LCD_DATA0" ∷ "I2S_SD_RX" ∷ "SDIO2_CCMD" ∷ [])
    ∷ muxctrl 0x1204005C ("GPIO3_4" ∷ "VI_VS" ∷ "VOU656_DATA1" ∷ "LCD_HSYNC" ∷ "UART2_RXD" ∷ [])
    ∷ muxctrl 0x12040060 ("GPIO3_5" ∷ "VI_HS" ∷ "VOU656_DATA0" ∷ "LCD_VSYNC" ∷ "UART2_TXD" ∷ [])
    ∷ muxctrl 0x12040064 ("GPIO7_7" ∷ "USB_PWREN" ∷ "reserved" ∷ "LCD_DE" ∷ [])
    ∷ muxctrl 0x12040068 ("GPIO4_1" ∷ "SDIO0_CARD_DETECT" ∷ [])
    ∷ muxctrl 0x1204006C ("GPIO4_0" ∷ "SDIO0_CARD_POWER_EN" ∷ "JTAG_TCK" ∷ [])
    ∷ muxctrl 0x12040070 ("GPIO4_4" ∷ "SDIO0_CDATA0" ∷ [])
    ∷ muxctrl 0x12040074 ("GPIO4_5" ∷ "SDIO0_CDATA1" ∷ "JTAG_TMS" ∷ [])
    ∷ muxctrl 0x12040078 ("GPIO4_3" ∷ "SDIO0_CCMD" ∷ [])
    ∷ muxctrl 0x1204007C ("GPIO4_2" ∷ "SDIO0_CCLK_OUT" ∷ "JTAG_TRSTN" ∷ [])
    ∷ muxctrl 0x12040080 ("GPIO4_7" ∷ "SDIO0_CDATA3" ∷ "JTAG_TDI" ∷ [])
    ∷ muxctrl 0x12040084 ("GPIO4_6" ∷ "SDIO0_CDATA2" ∷ "JTAG_TDO" ∷ [])
    ∷ muxctrl 0x12040088 ("GPIO3_3" ∷ "UART1_TXD" ∷ [])
    ∷ muxctrl 0x1204008C ("GPIO3_2" ∷ "UART1_CTSN" ∷ [])
    ∷ muxctrl 0x12040090 ("GPIO3_1" ∷ "UART1_RXD" ∷ [])
    ∷ muxctrl 0x12040094 ("GPIO3_0" ∷ "UART1_RTSN" ∷ [])
    ∷ muxctrl 0x12040098 ("GPIO2_5" ∷ "RMII_RXD0" ∷ "SDIO1_CDATA2" ∷ "LCD_HSYNC" ∷ [])
    ∷ muxctrl 0x1204009C ("GPIO2_4" ∷ "RMII_RX_DV" ∷ "SDIO1_CARD_POWER_EN" ∷ "LCD_DATA0" ∷ [])
    ∷ muxctrl 0x120400A0 ("GPIO2_6" ∷ "RMII_RXD1" ∷ "SDIO1_CCMD" ∷ "LCD_DATA5" ∷ [])
    ∷ muxctrl 0x120400A4 ("GPIO5_6" ∷ "MDCK" ∷ [])
    ∷ muxctrl 0x120400A8 ("GPIO5_7" ∷ "MDIO" ∷ "SDIO1_CARD_DETECT" ∷ "LCD_DATA1" ∷ [])
    ∷ muxctrl 0x120400AC ("GPIO2_3" ∷ "RMII_TXD1" ∷ "SDIO1_CDATA1" ∷ "LCD_DATA2" ∷ [])
    ∷ muxctrl 0x120400B0 ("GPIO2_2" ∷ "RMII_TXD0" ∷ "SDIO1_CDATA0" ∷ "LCD_DATA3" ∷ "TEST_CLK" ∷ [])
    ∷ muxctrl 0x120400B4 ("GPIO2_1" ∷ "RMII_TX_EN" ∷ "SDIO1_CDATA3" ∷ "LCD_DATA4" ∷ [])
    ∷ muxctrl 0x120400B8 ("GPIO2_0" ∷ "RMII_CLK" ∷ "SDIO1_CCLK_OUT" ∷ "LCD_CLK" ∷ [])
    ∷ muxctrl 0x120400BC ("GPIO5_5" ∷ "EPHY_CLK" ∷ "reserved" ∷ "LCD_VSYNC" ∷ [])
    ∷ muxctrl 0x120400C0 ("GPIO2_7" ∷ "EPHY_RSTN" ∷ "reserved" ∷ "LCD_DE" ∷ [])
    ∷ muxctrl 0x120400C4 ("GPIO5_4" ∷ "SPI1_CSN1" ∷ "UART2_RXD" ∷ "JTAG_TDI" ∷ "I2S_SD_TX" ∷ [])
    ∷ muxctrl 0x120400C8 ("GPIO5_3" ∷ "SPI1_CSN0" ∷ "UART2_TXD" ∷ "JTAG_TMS" ∷ "I2S_WS_TX" ∷ [])
    ∷ muxctrl 0x120400CC ("GPIO5_1" ∷ "SPI1_SDO" ∷ "reserved" ∷ "JTAG_TCK" ∷ "I2S_BCLK_TX" ∷ [])
    ∷ muxctrl 0x120400D0 ("GPIO5_2" ∷ "SPI1_SDI" ∷ "reserved" ∷ "JTAG_TDO" ∷ "I2S_MCLK" ∷ [])
    ∷ muxctrl 0x120400D4 ("GPIO5_0" ∷ "SPI1_SCLK" ∷ "reserved" ∷ "JTAG_TRSTN" ∷ "I2S_SD_RX" ∷ [])
    ∷ muxctrl 0x120400DC ("PWR_WAKEUP" ∷ "GPIO7_1" ∷ [])
    ∷ muxctrl 0x120400E0 ("PWR_SEQ0" ∷ "GPIO7_2" ∷ [])
    ∷ muxctrl 0x120400E4 ("PWR_SEQ1" ∷ "GPIO7_3" ∷ [])
    ∷ muxctrl 0x120400E8 ("PWR_SEQ2" ∷ "GPIO7_4" ∷ [])
    ∷ muxctrl 0x120400EC ("PWR_EN_OUT" ∷ "GPIO7_5" ∷ [])
    ∷ muxctrl 0x120400F0 ("PWR_BUTTON" ∷ "GPIO7_6" ∷ [])
    ∷ muxctrl 0x120400F4 ("GPIO0_0" ∷ "IR_IN" ∷ [])
    ∷ muxctrl 0x120400F8 ("GPIO0_1" ∷ "TEMPER_DQ" ∷ [])
    ∷ muxctrl 0x120400FC ("GPIO8_0" ∷ "SAR_ADC_CH0" ∷ [])
    ∷ muxctrl 0x12040100 ("GPIO8_1" ∷ "SAR_ADC_CH1" ∷ [])
    ∷ muxctrl 0x12040104 ("GPIO8_2" ∷ "SAR_ADC_CH2" ∷ [])
    ∷ muxctrl 0xdeadbeef ("GPIO0_2" ∷ [])
    ∷ []

pub cv300_regs-proper : proper cv300_regs ≡ true
unfolding cv300_regs proper
cv300_regs-proper = refl
